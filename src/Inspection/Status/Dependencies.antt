-- ===== src/Inspection/Status/Dependencies.antt =====
-- `inspectCRDs` of internal/inspection/status.go: which kinds the cluster serves.
pub mod Served
use kleym.Prelude.{
  Bool, true, false, not, Option, none, some, List, [], ◌∷◌, ◌++◌, is_nil, if◌then◌else◌,
}
use kleym.Prelude.Text.{Text, codes, join}
use kleym.Errors.{Error, Result, ok, err, is_no_match_error}
use kleym.Gaie.{GroupVersionKind, inference_pool_gvks}
use kleym.Spirecm.{cluster_spiffe_id_gvk}
use kleym.Cluster.{Prog, done, call, bind, try_bind, rest_mapping}
use kleym.Inspection.{Severity, BindingInspectionFinding}
use kleym.Inspection.Status.{StatusResult, CrdStatus, StatusReport, add_finding, Step, ◌>>◌}

unfoldable pub crd_missing_finding : Text → Text → BindingInspectionFinding
crd_missing_finding reason message = record {
  id = codes "crd-missing";
  severity = Severity.error;
  reason = reason;
  message = message;
  affected_refs = [];
}

abbrev served_as : Text → CrdStatus
served_as served = record { status = StatusResult.okay; message = []; served = served }

abbrev missing : Text → Text → CrdStatus
missing message served = record { status = StatusResult.error; message = message; served = served }

abbrev pub kleym_gvk : GroupVersionKind
kleym_gvk = record {
  group = codes "kleym.sonda.red";
  version = codes "v1alpha1";
  kind = codes "InferenceIdentityBinding";
}

abbrev with_kleym_crds : CrdStatus → StatusReport → StatusReport
with_kleym_crds s r = record r { components = record r.components { kleym_crds = s } }

abbrev with_spire_crds : CrdStatus → StatusReport → StatusReport
with_spire_crds s r = record r { components = record r.components { spire_crds = s } }

abbrev with_gaie_crds : CrdStatus → StatusReport → StatusReport
with_gaie_crds s r = record r { components = record r.components { gaie_crds = s } }

report_kleym : Result Bool → StatusReport → Option Error × StatusReport
report_kleym (err e) r = (some e, r)
report_kleym (ok true) r = (none, with_kleym_crds (served_as kleym_gvk.version) r)
report_kleym (ok false) r = (
  none,
  add_finding
      (crd_missing_finding (codes "InferenceIdentityBindingCRDMissing")
        (codes "InferenceIdentityBinding CRD is not installed"))
      (with_kleym_crds (missing (codes "missing InferenceIdentityBinding") []) r),
)

report_spire : Result Bool → StatusReport → Option Error × StatusReport
report_spire (err e) r = (some e, r)
report_spire (ok true) r = (none, with_spire_crds (served_as cluster_spiffe_id_gvk.version) r)
report_spire (ok false) r = (
  none,
  add_finding
      (crd_missing_finding (codes "ClusterSPIFFEIDCRDMissing")
        (codes "ClusterSPIFFEID CRD is not installed"))
      (with_spire_crds (missing (codes "missing ClusterSPIFFEID") []) r),
)

report_gaie : Result (List Text) → StatusReport → Option Error × StatusReport
report_gaie (err e) r = (some e, r)
report_gaie (ok versions) r =
    if not (is_nil versions)
    then (none, with_gaie_crds (served_as (join versions (codes ","))) r)
    else (
      none,
      add_finding
          (crd_missing_finding (codes "GAIECRDMissing")
            (codes "InferencePool CRD is not installed"))
          (with_gaie_crds (missing (codes "missing InferencePool") (codes "unavailable")) r),
    )

-- `gvk_text` is `GroupVersionKind.String`.
module _ (gvk_text : GroupVersionKind → Text) where
  mapped : GroupVersionKind → Result (Unit {0}) → Result Bool
  mapped gvk (ok _) = ok true
  mapped gvk (err e) =
      if is_no_match_error e
      then ok false
      else err (Error.wrapped (codes "resolve REST mapping for " ++ gvk_text gvk) e)

  unfoldable pub crd_available : GroupVersionKind → Prog (Result Bool)
  unfolding mapped
  crd_available gvk = call (rest_mapping gvk) λ reply. done (mapped gvk reply)

  add_version : GroupVersionKind → Bool → List Text → Prog (Result (List Text))
  add_version gvk true versions = done (ok (gvk.version ∷ versions))
  add_version gvk false versions = done (ok versions)

  unfoldable pub available_versions : List GroupVersionKind → Prog (Result (List Text))
  unfolding add_version
  available_versions [] = done (ok [])
  available_versions (gvk ∷ gvks) =
      let rest = available_versions gvks in
      try_bind (crd_available gvk) λ available. try_bind rest (add_version gvk available)

  inspect_kleym_crds : Step
  unfolding report_kleym
  inspect_kleym_crds r = bind (crd_available kleym_gvk) λ found. done (report_kleym found r)

  inspect_spire_crds : Step
  unfolding report_spire
  inspect_spire_crds r =
      bind (crd_available cluster_spiffe_id_gvk) λ found. done (report_spire found r)

  inspect_gaie_crds : Step
  unfolding report_gaie
  inspect_gaie_crds r =
      bind (available_versions inference_pool_gvks) λ found. done (report_gaie found r)

  unfoldable pub inspect_crds : Step
  unfolding inspect_kleym_crds inspect_spire_crds inspect_gaie_crds
  inspect_crds = inspect_kleym_crds >> inspect_spire_crds >> inspect_gaie_crds
