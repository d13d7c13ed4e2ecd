-- ===== src/Inspection/Status/Sound.antt =====
-- Steps of the status inspection that establish something of every report without an error.
use kleym.Prelude.{
  ◌≡◌, refl, sym, ap, subst, ◌∙◌, true, false, Option, none, some, List, [], ◌∷◌, ◌++◌, arith,
}
use kleym.Errors.{Error}
use kleym.Cluster.{Call, Reply, Prog, done, bind, run, run-bind}
use kleym.Inspection.{BindingInspectionFinding, has_error_severity_finding, is_error}
use kleym.Inspection.Binding.Run.Clean.{has_error-append}
use kleym.Inspection.Status.{StatusReport, Step, continue, ◌>>◌}

-- What holds of a report unless it has an error.
abbrev pub Sound : (StatusReport → Type 0) → StatusReport → Type 0
Sound P r = has_error_severity_finding r.findings ≡ false → P r

-- A step that does not fail.
abbrev pub Keeps :
    ((c : Call) → Reply c) → (StatusReport → Type 0) → (StatusReport → Type 0) → Step → Type 0
Keeps answer P Q m =
    (r after : StatusReport) → Sound P r → run answer (m r) ≡ (none, after) → Sound Q after

-- One more error is no report without an error.
pub error_added :
    (P : Type 0) (fs : List BindingInspectionFinding) (f : BindingInspectionFinding)
    → is_error f.severity ≡ true
    → has_error_severity_finding (fs ++ f ∷ []) ≡ false
    → P
unfolding has_error_severity_finding
error_added P fs f e h = absurd (ground (arith, has_error-append fs (f ∷ [])))

module _ (answer : (c : Call) → Reply c) (P Q R : StatusReport → Type 0) where
  run-continue :
      (k : Step) (first : Option Error × StatusReport) (after : StatusReport)
      → Keeps answer Q R k
      → ((mid : StatusReport) → first ≡ (none, mid) → Sound Q mid)
      → run answer (continue k first) ≡ (none, after)
      → Sound R after
  unfolding run
  run-continue k (none, r) after keeps sound h = keeps r after (sound r refl) h
  run-continue k (some e, r) after keeps sound h = absurd (some_ne_none h)
    where
      some_ne_none : ◌≡◌ {A = Option Error × StatusReport} (some e, r) (none, after) → ⊥
      some_ne_none h = cc

  pub Keeps->> : (m k : Step) → Keeps answer P Q m → Keeps answer Q R k → Keeps answer P R (m >> k)
  unfolding ◌>>◌
  Keeps->> m k first second r after sound h =
      run-continue k (run answer (m r)) after second (λ mid e. first r mid sound e)
        (sym (run-bind answer (m r) (continue k)) ∙ h)

-- A step that ends with a pure report.
pub Keeps-bind :
    {A : Type 0} (answer : (c : Call) → Reply c) (P Q : StatusReport → Type 0)
    → (p : Prog A) (report : A → StatusReport → Option Error × StatusReport)
    → ((a : A) (r : StatusReport)
        → a ≡ run answer p
        → Sound P r
        → (report a r).0 ≡ none
        → Sound Q (report a r).1)
    → Keeps answer P Q (λ r. bind p (λ a. done (report a r)))
unfolding run
Keeps-bind answer P Q p report keeps r after sound h =
    let reported = sym (run-bind answer p λ a. done (report a r)) ∙ h in
    subst (Sound Q) (ap (λ x. x.1) reported)
      (keeps (run answer p) r refl sound (ap (λ x. x.0) reported))
