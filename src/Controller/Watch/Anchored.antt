-- ===== src/Controller/Watch/Anchored.antt =====
-- Which bindings a changed InferencePool gives requests for: those of a namespace with a binding that is anchored to it.
use mathlib.Core.List.{Mem-prop, Memᴰ, not-mem-nil}
use mathlib.Core.List.Memᴰ
use mathlib.Core.Logic.{∥∥₁_map, ∥∥₁_elim}
use kleym.Prelude.{
  ◌≡◌, refl, sym, ap, subst, ◌∙◌, inl, inr, ◌↔◌, Bool, true, false, not, ◌&&◌, List, [], ◌∷◌, Mem,
  keep, is_nil, Bool-cases, if◌then◌else◌, arith,
}
use kleym.Prelude.Keep.{kept_mem, mem_kept}
use kleym.Prelude.Text.{Text, text_eq, text_eq_iff, trim_space}
use kleym.Identity.{NamespacedName}
use kleym.Identity.Selectors.{occurs}
use kleym.Api.{InferenceIdentityBinding}
use kleym.Gaie.Selector.{InferencePool}
use kleym.Cluster.{Call, Reply, done, run}
use kleym.Controller.Conflict.{ref_of}
use kleym.Controller.Watch.{
  binding_pool_ref_name_index_value, requests_for_bindings, requests_of, map_binding_to_peers,
  references_group, after_references, map_pool_to_bindings,
}
use kleym.Controller.Watch.Requeue.{Serves, mem-requests}

-- The group that a reference names, trimmed, against the pool's: a side that names no group fits any.
pub data OfGroup : Text → Text → Type 0 where
  unpinned : (group : Text) → OfGroup [] group
  ungrouped : (ref : Text) → OfGroup ref []
  same : (group : Text) → OfGroup group group

-- A binding in the namespace of a pool whose reference, without the space around it, means the pool.
pub record Anchors (pool : InferencePool) (b : InferenceIdentityBinding) : Type 0 where
  pub namespace : b.namespace ≡ pool.namespace
  pub name : trim_space b.spec.pool_ref.name ≡ pool.name
  pub named : is_nil pool.name ≡ false
  pub group : OfGroup (trim_space b.spec.pool_ref.group) pool.gvk.group

-- A binding of the pool's namespace that the index gives for the pool, and that is not pinned to another group.
anchors : InferencePool → InferenceIdentityBinding → Bool
anchors pool b =
    (text_eq b.namespace pool.namespace && occurs pool.name (binding_pool_ref_name_index_value b))
    && references_group pool.gvk.group b

fits : Text → Text → Bool
fits ref group = not (not (is_nil ref) && not (is_nil group) && not (text_eq ref group))

fits-OfGroup : (ref group : Text) → fits ref group ≡ true → OfGroup ref group
unfolding fits
fits-OfGroup [] group h = unpinned group
fits-OfGroup (c ∷ ref) [] h = ungrouped (c ∷ ref)
fits-OfGroup (c ∷ ref) (d ∷ group) h =
    subst (OfGroup (c ∷ ref)) ((text_eq_iff (c ∷ ref) (d ∷ group)).0 (ground (arith, h)))
      (same (c ∷ ref))

OfGroup-fits : (ref group : Text) → OfGroup ref group → fits ref group ≡ true
unfolding fits
OfGroup-fits _ _ (unpinned group) = refl
OfGroup-fits _ _ (ungrouped ref) = ground arith
OfGroup-fits _ _ (same group) = ground (arith, (text_eq_iff group group).1 refl)

fits_iff : (ref group : Text) → (fits ref group ≡ true) ↔ OfGroup ref group
fits_iff ref group = (fits-OfGroup ref group, OfGroup-fits ref group)

index_iff :
    (s name : Text)
    → (occurs name (if is_nil s then [] else s ∷ []) ≡ true) ↔ ((s ≡ name) × (is_nil name ≡ false))
unfolding occurs
index_iff [] name = (λ h. cc, λ (e, h). absurd (ground (arith, ap is_nil e, h)))
index_iff (c ∷ s) name = (
  λ h.
      let e : name ≡ c ∷ s = (text_eq_iff name (c ∷ s)).0 (ground (arith, h)) in
      (sym e, ap is_nil e),
  λ (e, h). ground (arith, (text_eq_iff name (c ∷ s)).1 (sym e)),
)

both : (a b : Bool) → (a && b) ≡ true → (a ≡ true) × (b ≡ true)
both a b h = (ground arith, ground arith)

all_three : (a b c : Bool) → a ≡ true → b ≡ true → c ≡ true → ((a && b) && c) ≡ true
all_three a b c ha hb hc = ground arith

anchors_iff :
    (pool : InferencePool) (b : InferenceIdentityBinding) → (anchors pool b ≡ true) ↔ Anchors pool b
unfolding anchors binding_pool_ref_name_index_value references_group fits
anchors_iff pool b =
    let namespaces = text_eq_iff b.namespace pool.namespace in
    let names = index_iff (trim_space b.spec.pool_ref.name) pool.name in
    let groups = fits_iff (trim_space b.spec.pool_ref.group) pool.gvk.group in
    (
      λ h.
          let (named, grouped) = both _ _ h in
          let (in_namespace, indexed) = both _ _ named in
          let (name, full) = names.0 indexed in
          record {
            namespace = namespaces.0 in_namespace;
            name = name;
            named = full;
            group = groups.0 grouped;
          },
      λ a.
          all_three _ _ _ (namespaces.1 a.namespace) (names.1 (a.name, a.named)) (groups.1 a.group),
    )

keep-keep :
    {A : Type 0} (p q : A → Bool) (xs : List A) → keep q (keep p xs) ≡ keep (λ x. p x && q x) xs
unfolding keep
keep-keep p q [] = refl
keep-keep p q (x ∷ xs) = elim (Bool-cases (p x)) [
  | inl t ↦ rw (t, keep) (ap (λ l. if q x then x ∷ l else l) (keep-keep p q xs))
  | inr f ↦ rw f (keep-keep p q xs)
]

-- The tests of `mapInferencePoolToBindings` are one test of each binding.
run-map_pool_to_bindings :
    (store : List InferenceIdentityBinding) (answer : (c : Call) → Reply c) (pool : InferencePool)
    → Serves store answer
    → run answer (map_pool_to_bindings pool) ≡ (
        if is_nil (keep (anchors pool) store)
        then []
        else requests_for_bindings (keep (λ b. text_eq b.namespace pool.namespace) store))
unfolding run map_pool_to_bindings after_references map_binding_to_peers requests_of anchors
run-map_pool_to_bindings store answer pool serves =
    ap (λ reply. run answer (after_references pool reply)) (serves.by_pool pool.namespace pool.name)
    ∙ (serves_peers _
        ∙ ap
            (λ l.
              if is_nil l
              then []
              else requests_for_bindings (keep (λ b. text_eq b.namespace pool.namespace) store))
            (keep-keep _ (references_group pool.gvk.group) store))
  where
    serves_peers :
        (none_left : Bool)
        → run answer (if none_left then done [] else map_binding_to_peers pool.namespace) ≡ (
            if none_left
            then []
            else requests_for_bindings (keep (λ b. text_eq b.namespace pool.namespace) store))
    serves_peers true = refl
    serves_peers false = rw (serves.in_namespace pool.namespace) refl

-- Some stored binding is anchored to the pool.
abbrev pub Anchored : List InferenceIdentityBinding → InferencePool → Type 0
Anchored store pool = (b : InferenceIdentityBinding) × Mem b store × Anchors pool b

-- A stored binding of the namespace, of the reference.
abbrev pub Peer : List InferenceIdentityBinding → Text → NamespacedName → Type 0
Peer store namespace ref =
    (b : InferenceIdentityBinding) × Mem b store × (b.namespace ≡ namespace) × (ref_of b ≡ ref)

mem-peers :
    (store : List InferenceIdentityBinding) (namespace : Text) (ref : NamespacedName)
    → Mem ref (requests_for_bindings (keep (λ b. text_eq b.namespace namespace) store))
      ↔ ∥ Peer store namespace ref ∥₁
mem-peers store namespace ref = (
  λ m.
      ∥∥₁_map ((mem-requests store _ ref).0 m)
        λ (b, k, t, e). (b, k, (text_eq_iff b.namespace namespace).0 t, e),
  λ s.
      (mem-requests store _ ref).1
        (∥∥₁_map s λ (b, k, t, e). (b, k, (text_eq_iff b.namespace namespace).1 t, e)),
)

mem-guarded :
    (store : List InferenceIdentityBinding) (pool : InferencePool)
    → (kept : List InferenceIdentityBinding) (ref : NamespacedName)
    → keep (anchors pool) store ≡ kept
    → Mem ref (
        if is_nil kept
        then []
        else requests_for_bindings (keep (λ b. text_eq b.namespace pool.namespace) store))
      ↔ (∥ Anchored store pool ∥₁ × ∥ Peer store pool.namespace ref ∥₁)
mem-guarded store pool [] ref e = (
  λ m. absurd (not-mem-nil m),
  λ (a, _). ∥∥₁_elim a Mem-prop λ (b, k, h). ∥∥₁_elim k Mem-prop λ k'.
      absurd
        (Memᴰ.not-nil (rw e at (mem_kept (anchors pool) store b k' ((anchors_iff pool b).1 h)))),
)
mem-guarded store pool (b ∷ bs) ref e =
    let (k, t) = kept_mem (anchors pool) store b (rw e (Memᴰ.head refl)) in
    let peers = mem-peers store pool.namespace ref in
    (λ m. (∣ (b, ∣ k ∣₁, (anchors_iff pool b).0 t) ∣₁, peers.0 m), λ (_, s). peers.1 s)

-- When the lists of the cluster are those of a store of bindings under the registered indexes, a change of a pool
-- gives a request for a reference exactly when some stored binding of the pool's namespace is anchored to the pool
-- (its trimmed reference has the pool's name, which is not empty, and the pool's group, where both name a group) and a
-- stored binding of the pool's namespace has the reference.
pub mem-map_pool_to_bindings :
    (store : List InferenceIdentityBinding) (answer : (c : Call) → Reply c)
    → (pool : InferencePool) (ref : NamespacedName) → Serves store answer
    → Mem ref (run answer (map_pool_to_bindings pool))
      ↔ (∥ Anchored store pool ∥₁ × ∥ Peer store pool.namespace ref ∥₁)
mem-map_pool_to_bindings store answer pool ref serves =
    rw (run-map_pool_to_bindings store answer pool serves) (mem-guarded store pool _ ref refl)
