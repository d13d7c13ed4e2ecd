-- ===== src/Inspection/Status/Dependencies/Served.antt =====
-- A report without an error shows every kind as served, and the cluster serves it.
use mathlib.Core.List.{Memᴰ}
use mathlib.Core.Logic.{∥∥₁_map}
use kleym.Prelude.{
  ◌≡◌, refl, sym, ◌∙◌, ◌⊎◌, inl, inr, Bool, true, false, none, List, [], ◌∷◌, Mem, if◌then◌else◌,
}
use kleym.Prelude.Text.{Text}
use kleym.Errors.{Error, Result, ok, err, is_no_match_error}
use kleym.Gaie.{GroupVersionKind, inference_pool_gvks}
use kleym.Spirecm.{cluster_spiffe_id_gvk}
use kleym.Cluster.{Call, Reply, Prog, done, call, run, bind, try_bind, rest_mapping}
use kleym.Inspection.Status.{StatusResult, StatusComponents, StatusReport}
use kleym.Inspection.Status.Sound.{Sound, Keeps, Keeps->>, Keeps-bind, error_added}
use kleym.Inspection.Status.Dependencies.{
  report_kleym, report_spire, report_gaie, inspect_kleym_crds, inspect_spire_crds,
  inspect_gaie_crds, inspect_crds, crd_missing_finding, kleym_gvk, crd_available,
  available_versions, mapped, add_version,
}

-- The cluster's answer to the lookup of a kind is that it serves the kind.
abbrev pub IsServed : ((c : Call) → Reply c) → GroupVersionKind → Type 0
IsServed answer gvk = answer (rest_mapping gvk) ≡ ok tt

-- One of the kinds is served.
abbrev pub SomeServed : ((c : Call) → Reply c) → List GroupVersionKind → Type 0
SomeServed answer gvks = (gvk : GroupVersionKind) × Mem gvk gvks × IsServed answer gvk

-- The components show a kind as served, and it is.
abbrev pub InKleym : ((c : Call) → Reply c) → StatusComponents → Type 0
InKleym answer c = (c.kleym_crds.status ≡ StatusResult.okay) × IsServed answer kleym_gvk

abbrev pub InSpire : ((c : Call) → Reply c) → StatusComponents → Type 0
InSpire answer c =
    (c.spire_crds.status ≡ StatusResult.okay)
    × IsServed answer cluster_spiffe_id_gvk
    × InKleym answer c

abbrev pub InCrds : ((c : Call) → Reply c) → StatusComponents → Type 0
InCrds answer c =
    (c.gaie_crds.status ≡ StatusResult.okay)
    × SomeServed answer inference_pool_gvks
    × InSpire answer c

not_served :
    (flag : Bool) (e : Error)
    → ◌≡◌ {A = Result Bool} (if flag then ok false else err e) (ok true)
    → ⊥
not_served true e h = cc
not_served false e h = cc

module _ (gvk_text : GroupVersionKind → Text) (answer : (c : Call) → Reply c) where
  abbrev HasKleym : StatusReport → Type 0
  HasKleym r = InKleym answer r.components

  abbrev HasSpire : StatusReport → Type 0
  HasSpire r = InSpire answer r.components

  abbrev HasCrds : StatusReport → Type 0
  HasCrds r = InCrds answer r.components

  mapped-IsServed :
      (gvk : GroupVersionKind) (reply : Result (Unit {0}))
      → mapped gvk_text gvk reply ≡ ok true
      → reply ≡ ok tt
  unfolding mapped
  mapped-IsServed gvk (ok _) h = refl
  mapped-IsServed gvk (err e) h = absurd (not_served (is_no_match_error e) _ h)

  crd_available-IsServed :
      (gvk : GroupVersionKind)
      → run answer (crd_available gvk_text gvk) ≡ ok true
      → IsServed answer gvk
  unfolding crd_available run
  crd_available-IsServed gvk h = mapped-IsServed gvk (answer (rest_mapping gvk)) h

  run-try_bind-done :
      {A : Type 0} (p : Prog (Result A)) → run answer (try_bind p λ x. done (ok x)) ≡ run answer p
  unfolding run try_bind
  run-try_bind-done (done (ok x)) = refl
  run-try_bind-done (done (err e)) = refl
  run-try_bind-done (call c k) = run-try_bind-done (k (answer c))

  version_added :
      (gvk : GroupVersionKind) (available : Result Bool) (rest : Prog (Result (List Text)))
      → (v : Text) (vs : List Text)
      → run answer (try_bind (done available) λ a. try_bind rest (add_version gvk_text gvk a))
        ≡ ok (v ∷ vs)
      → (available ≡ ok true) ⊎ (run answer rest ≡ ok (v ∷ vs))
  unfolding try_bind add_version run
  version_added gvk (ok true) rest v vs h = inl refl
  version_added gvk (ok false) rest v vs h = inr (sym (run-try_bind-done rest) ∙ h)
  version_added gvk (err e) rest v vs h = absurd (failed h)
    where
      failed : ◌≡◌ {A = Result (List Text)} (run answer (done (err e))) (ok (v ∷ vs)) → ⊥
      failed h = cc

  available_versions-SomeServed :
      (gvks : List GroupVersionKind) (v : Text) (vs : List Text)
      → run answer (available_versions gvk_text gvks) ≡ ok (v ∷ vs)
      → SomeServed answer gvks
  unfolding available_versions run crd_available bind try_bind
  available_versions-SomeServed [] v vs h = cc
  available_versions-SomeServed (gvk ∷ gvks) v vs h =
      elim (version_added gvk _ (available_versions gvk_text gvks) v vs h) [
        | inl served ↦
            (gvk, ∣ Memᴰ.head refl ∣₁, mapped-IsServed gvk (answer (rest_mapping gvk)) served)
        | inr later ↦
            let (found, m, served) = available_versions-SomeServed gvks v vs later in
            (found, ∥∥₁_map m Memᴰ.tail, served)
      ]

  report_kleym-Sound :
      (found : Result Bool) (r : StatusReport)
      → found ≡ run answer (crd_available gvk_text kleym_gvk)
      → Sound (λ r. Unit {0}) r
      → (report_kleym found r).0 ≡ none
      → Sound HasKleym (report_kleym found r).1
  unfolding report_kleym crd_missing_finding
  report_kleym-Sound (err e) r same sound h clean = cc
  report_kleym-Sound (ok true) r same sound h clean =
      (refl, crd_available-IsServed kleym_gvk (sym same))
  report_kleym-Sound (ok false) r same sound h clean = error_added _ r.findings _ refl clean

  report_spire-Sound :
      (found : Result Bool) (r : StatusReport)
      → found ≡ run answer (crd_available gvk_text cluster_spiffe_id_gvk)
      → Sound HasKleym r
      → (report_spire found r).0 ≡ none
      → Sound HasSpire (report_spire found r).1
  unfolding report_spire crd_missing_finding
  report_spire-Sound (err e) r same sound h clean = cc
  report_spire-Sound (ok true) r same sound h clean =
      (refl, crd_available-IsServed cluster_spiffe_id_gvk (sym same), sound clean)
  report_spire-Sound (ok false) r same sound h clean = error_added _ r.findings _ refl clean

  report_gaie-Sound :
      (found : Result (List Text)) (r : StatusReport)
      → found ≡ run answer (available_versions gvk_text inference_pool_gvks)
      → Sound HasSpire r
      → (report_gaie found r).0 ≡ none
      → Sound HasCrds (report_gaie found r).1
  unfolding report_gaie crd_missing_finding
  report_gaie-Sound (err e) r same sound h clean = cc
  report_gaie-Sound (ok (v ∷ vs)) r same sound h clean =
      (refl, available_versions-SomeServed inference_pool_gvks v vs (sym same), sound clean)
  report_gaie-Sound (ok []) r same sound h clean = error_added _ r.findings _ refl clean

  pub inspect_crds-Keeps : Keeps answer (λ r. Unit {0}) HasCrds (inspect_crds gvk_text)
  unfolding inspect_crds inspect_kleym_crds inspect_spire_crds inspect_gaie_crds
  inspect_crds-Keeps =
      Keeps->> answer (λ r. Unit {0}) HasSpire HasCrds _ _
        (Keeps->> answer (λ r. Unit {0}) HasKleym HasSpire _ _
          (Keeps-bind answer (λ r. Unit {0}) HasKleym (crd_available gvk_text kleym_gvk)
            report_kleym report_kleym-Sound)
          (Keeps-bind answer HasKleym HasSpire (crd_available gvk_text cluster_spiffe_id_gvk)
            report_spire report_spire-Sound))
        (Keeps-bind answer HasSpire HasCrds (available_versions gvk_text inference_pool_gvks)
          report_gaie report_gaie-Sound)
