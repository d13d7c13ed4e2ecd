-- ===== src/Inspection/Selection/Scope.antt =====
-- Which pods the inspection can report for a plan.
use mathlib.Core.List.{Memᴰ}
use mathlib.Core.List.Memᴰ
use mathlib.Core.Logic.{∥∥₁_map, ∥∥₁_elim}
use kleym.Prelude.{
  ◌≡◌, refl, ap, subst, ◌∙◌, ◌⊎◌, inl, inr, true, false, Option, none, some, List, [], ◌∷◌, ◌++◌,
  Mem, map, is_nil, Bool-cases, arith,
}
use kleym.Prelude.Text.{Text, codes, cut, text_eq_iff, has_prefix, trim_prefix}
use kleym.Prelude.Prefix.{trim_prefix-append, has_prefix-append}
use kleym.Prelude.Keep.{mem_append_cases}
use kleym.Errors.{ok}
use kleym.Identity.{Validation, PlanInput, Plan}
use kleym.Identity.Planning.{plan_identity}
use kleym.Identity.Planning.Safety.{namespace_prefix, account_prefix, Fits, plan_identity-IsSafe}
use kleym.Cluster.{Pod}
use kleym.Inspection.{BindingInspectionMatchedPod}
use kleym.Inspection.Selection.{
  WorkloadSelection, with_label, select, select_all, empty_selection,
  workload_selection_from_selectors, pod_matches_selection, matched_pod, matches_in,
  matching_pod_containers, matched_pods_from_pods,
}

with_label-keeps :
    (s : Text) (found : Option (Text × Text)) (w : WorkloadSelection)
    → ((with_label s found w).namespace ≡ w.namespace)
      × ((with_label s found w).service_account ≡ w.service_account)
unfolding with_label
with_label-keeps s none w = (refl, refl)
with_label-keeps s (some (key, value)) w = ground arith

-- One round changes a field only for a selector with its prefix.
select-fields :
    (s : Text) (w : WorkloadSelection)
    → (((select s w).namespace ≡ w.namespace)
        ⊎ ((has_prefix s namespace_prefix ≡ true)
            × ((select s w).namespace ≡ trim_prefix s namespace_prefix)))
      × (((select s w).service_account ≡ w.service_account)
          ⊎ ((has_prefix s account_prefix ≡ true)
              × ((select s w).service_account ≡ trim_prefix s account_prefix)))
unfolding select
select-fields s w =
    let kept = with_label-keeps s (cut (trim_prefix s (codes "k8s:pod-label:")) b':') w in
    let kept_namespace = kept.0 in
    let kept_account = kept.1 in ground (arith, kept_namespace, kept_account)

module _ (ns sa variant : Text) where
  select-namespace :
      (s : Text) (w : WorkloadSelection)
      → Fits ns sa variant s
      → w.namespace ≡ ns
      → (select s w).namespace ≡ ns
  select-namespace s w fits h = elim (select-fields s w).0 [
    | inl same ↦ same ∙ h
    | inr (p, e) ↦
        e
        ∙ (ap (λ x. trim_prefix x namespace_prefix) (fits.own_namespace p)
            ∙ trim_prefix-append namespace_prefix ns)
  ]

  select-account :
      (s : Text) (w : WorkloadSelection)
      → Fits ns sa variant s
      → w.service_account ≡ sa
      → (select s w).service_account ≡ sa
  select-account s w fits h = elim (select-fields s w).1 [
    | inl same ↦ same ∙ h
    | inr (p, e) ↦
        e
        ∙ (ap (λ x. trim_prefix x account_prefix) (fits.own_account p)
            ∙ trim_prefix-append account_prefix sa)
  ]

  select-own_namespace :
      (w : WorkloadSelection) → (select (namespace_prefix ++ ns) w).namespace ≡ ns
  unfolding select
  select-own_namespace w =
      rw (has_prefix-append namespace_prefix ns) (trim_prefix-append namespace_prefix ns)

  select-own_account :
      (w : WorkloadSelection) → (select (account_prefix ++ sa) w).service_account ≡ sa
  unfolding select has_prefix codes trim_prefix
  select-own_account w = trim_prefix-append account_prefix sa

  select_all-keeps :
      (ss : List Text) (w : WorkloadSelection)
      → ((s : Text) → Memᴰ s ss → Fits ns sa variant s)
      → ((w.namespace ≡ ns) → (select_all ss w).namespace ≡ ns)
        × ((w.service_account ≡ sa) → (select_all ss w).service_account ≡ sa)
  unfolding select_all
  select_all-keeps [] w fit = (λ h. h, λ h. h)
  select_all-keeps (s ∷ ss) w fit =
      let (n, a) = select_all-keeps ss (select s w) (λ t m. fit t (Memᴰ.tail m)) in
      (
        λ h. n (select-namespace s w (fit s (Memᴰ.head refl)) h),
        λ h. a (select-account s w (fit s (Memᴰ.head refl)) h),
      )

  select_all-namespace :
      (ss : List Text) (w : WorkloadSelection)
      → ((s : Text) → Memᴰ s ss → Fits ns sa variant s)
      → Memᴰ (namespace_prefix ++ ns) ss
      → (select_all ss w).namespace ≡ ns
  unfolding select_all
  select_all-namespace [] w fit m = absurd (Memᴰ.not-nil m)
  select_all-namespace (s ∷ ss) w fit (Memᴰ.head e) =
      (select_all-keeps ss (select s w) (λ t m. fit t (Memᴰ.tail m))).0
        (subst (λ x. (select x w).namespace ≡ ns) e (select-own_namespace w))
  select_all-namespace (s ∷ ss) w fit (Memᴰ.tail m) =
      select_all-namespace ss (select s w) (λ t k. fit t (Memᴰ.tail k)) m

  select_all-account :
      (ss : List Text) (w : WorkloadSelection)
      → ((s : Text) → Memᴰ s ss → Fits ns sa variant s)
      → Memᴰ (account_prefix ++ sa) ss
      → (select_all ss w).service_account ≡ sa
  unfolding select_all
  select_all-account [] w fit m = absurd (Memᴰ.not-nil m)
  select_all-account (s ∷ ss) w fit (Memᴰ.head e) =
      (select_all-keeps ss (select s w) (λ t m. fit t (Memᴰ.tail m))).1
        (subst (λ x. (select x w).service_account ≡ sa) e (select-own_account w))
  select_all-account (s ∷ ss) w fit (Memᴰ.tail m) =
      select_all-account ss (select s w) (λ t k. fit t (Memᴰ.tail k)) m

-- A pod that a reported match stands for.
pub record Owns (ns sa : Text) (m : BindingInspectionMatchedPod) (pod : Pod) : Type 0 where
  pub own_namespace : pod.namespace ≡ ns
  pub own_account : pod.service_account_name ≡ sa
  pub same_namespace : m.namespace ≡ pod.namespace
  pub same_name : m.pod ≡ pod.name

-- What stands for a pod.
SamePod : BindingInspectionMatchedPod → Pod → Type 0
SamePod m pod = (m.namespace ≡ pod.namespace) × (m.pod ≡ pod.name)

mem-map-matched_pod :
    (pod : Pod) (m : BindingInspectionMatchedPod) (cs : List Text)
    → Memᴰ m (map (matched_pod pod) cs)
    → SamePod m pod
unfolding SamePod
mem-map-matched_pod pod m [] h = absurd (Memᴰ.not-nil h)
mem-map-matched_pod pod m (c ∷ cs) (Memᴰ.head e) = (ap (λ x. x.namespace) e, ap (λ x. x.pod) e)
mem-map-matched_pod pod m (c ∷ cs) (Memᴰ.tail h) = mem-map-matched_pod pod m cs h

mem-matches_in :
    (pod : Pod) (w : WorkloadSelection) (c : Option Text) (m : BindingInspectionMatchedPod)
    → Memᴰ m (matches_in pod w c)
    → SamePod m pod
unfolding matches_in SamePod
mem-matches_in pod w none m (Memᴰ.head e) = (ap (λ x. x.namespace) e, ap (λ x. x.pod) e)
mem-matches_in pod w none m (Memᴰ.tail h) = absurd (Memᴰ.not-nil h)
mem-matches_in pod w (some name) m h = mem-map-matched_pod pod m (matching_pod_containers pod w) h

mem-matched_pods :
    (pods : List Pod) (w : WorkloadSelection) (m : BindingInspectionMatchedPod)
    → Memᴰ m (matched_pods_from_pods pods w)
    → (pod : Pod) × Memᴰ pod pods × (pod_matches_selection pod w ≡ true) × SamePod m pod
unfolding matched_pods_from_pods
mem-matched_pods [] w m h = absurd (Memᴰ.not-nil h)
mem-matched_pods (pod ∷ pods) w m h =
    let later : Memᴰ m (matched_pods_from_pods pods w)
        → (q : Pod) × Memᴰ q (pod ∷ pods) × (pod_matches_selection q w ≡ true) × SamePod m q =
      λ k. let (q, n, e, same) = mem-matched_pods pods w m k in (q, Memᴰ.tail n, e, same) in
    elim (Bool-cases (pod_matches_selection pod w)) [
      | inr f ↦ later (rw (f, matched_pods_from_pods) at h)
      | inl t ↦ elim (mem_append_cases m (matches_in pod w w.container_name) _ (rw t at h)) [
        | inl k ↦ (pod, Memᴰ.head refl, t, mem-matches_in pod w w.container_name m k)
        | inr k ↦ later k
      ]
    ]

pod_matches-fields :
    (pod : Pod) (w : WorkloadSelection)
    → pod_matches_selection pod w ≡ true
    → is_nil w.namespace ≡ false
    → is_nil w.service_account ≡ false
    → (pod.namespace ≡ w.namespace) × (pod.service_account_name ≡ w.service_account)
unfolding pod_matches_selection
pod_matches-fields pod w h n a = (
  (text_eq_iff pod.namespace w.namespace).0 (ground arith),
  (text_eq_iff pod.service_account_name w.service_account).0 (ground arith),
)

-- One of the listed pods that a match stands for.
abbrev pub Owned : Text → Text → List Pod → BindingInspectionMatchedPod → Type 0
Owned ns sa pods m = (pod : Pod) × Mem pod pods × Owns ns sa m pod

-- Whatever the pool selects, a pod that is reported for a plan is one of the listed pods, stands in the namespace of the
-- binding and runs under its service account; the namespace and the service account must not be empty.
pub plan_identity-matched_pods :
    (v : Validation) (input : PlanInput) (plan : Plan) (pods : List Pod)
    → (m : BindingInspectionMatchedPod) → plan_identity v input ≡ ok plan
    → is_nil input.namespace ≡ false
    → is_nil input.service_account_name ≡ false
    → Mem m (matched_pods_from_pods pods (workload_selection_from_selectors plan.selectors))
    → ∥ Owned input.namespace input.service_account_name pods m ∥₁
unfolding workload_selection_from_selectors SamePod
plan_identity-matched_pods v input plan pods m planned n a h =
    let safe = plan_identity-IsSafe v input plan planned in
    let fit : (s : Text)
        → Memᴰ s plan.selectors
        → Fits input.namespace input.service_account_name input.variant s =
      λ s k. safe.fit s ∣ k ∣₁ in
    let w = workload_selection_from_selectors plan.selectors in
    ∥∥₁_elim safe.has_namespace (hlevel) (λ has_namespace.
      ∥∥₁_elim safe.has_account (hlevel) (λ has_account. ∥∥₁_map h (λ k.
        let own_namespace =
          select_all-namespace input.namespace input.service_account_name input.variant
            plan.selectors empty_selection fit has_namespace in
        let own_account =
          select_all-account input.namespace input.service_account_name input.variant plan.selectors
            empty_selection fit has_account in
        let (pod, listed, matches, same) = mem-matched_pods pods w m k in
        let (e, f) =
          pod_matches-fields pod w matches (ap is_nil own_namespace ∙ n)
            (ap is_nil own_account ∙ a) in
        (
          pod,
          ∣ listed ∣₁,
          record {
            own_namespace = e ∙ own_namespace;
            own_account = f ∙ own_account;
            same_namespace = same.0;
            same_name = same.1;
          },
        ))))
