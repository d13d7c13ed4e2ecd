-- ===== src/Controller/Conflict/Safety.antt =====
-- The conflict evaluation and the withdrawal under every answer of the cluster: output is deleted only for a
-- member whose durable status owns it.
use kleym.Prelude.{
  refl, inl, inr, Bool, true, false, Option, some, none, List, [], ◌∷◌, ◌++◌, is_nil, any,
  if◌then◌else◌, Bool-cases,
}
use mathlib.Core.List.{Memᴰ}
use kleym.Prelude.Text.{Text}
use kleym.Errors.{StateError, Error, Result, ok, err, errors_as_state_error}
use kleym.Identity.{Plan, NamespacedName}
use kleym.Identity.Boundary.{VariantConflict}
use kleym.Api.{InferenceIdentityBinding}
use kleym.Cluster.{list_bindings}
use kleym.Controller.Evidence.{event, History, Shows, Permitted, Backed}
use kleym.Controller.Evidence.Rules.{
  Stable, Backed-Stable, Shows-Backed, OnOk, Ends, Triple, True, Any, pure-Triple, raise-Triple,
  gets-Triple, computes-Triple, lift-Triple, attempt-Triple, weaken-Triple, frame-Triple,
  keep-Triple, bind-Triple, perform-Triple, modify-Triple, on_copy-Triple, if-Triple, Runs-if,
}
use kleym.Controller.{Reconciler, Action, pure, attempt, ◌>>=◌}
use kleym.Controller.Output.Safety.{cleanup-Triple, list_any-Triple}
use kleym.Controller.Output.{list_managed_cluster_spiffe_ids}
use kleym.Controller.Render.{render_identity_for_binding}
use kleym.Controller.Render.Safety.{render-Triple}
use kleym.Controller.Failure.Safety.{with_failure_status-Triple, outcome-Triple}
use kleym.Controller.Status.Safety.{patch_status-Triple}
use kleym.Controller.Status.Keeps.{
  SameOwnership, apply_conflict_status-KeepsOwnership, apply_pending_conflict_status-KeepsOwnership,
}
use kleym.Controller.Conflict.{
  Member, current, copy, BindingConflictState, append_conflict_member, PeerEvaluation, relevant,
  irrelevant, blocks_recovery, evaluate_error, evaluate_failed, evaluate_present,
  identity_for_conflict_evaluation, Evaluated, collect, evaluate_peers, lookup_binding,
  append_members, append_peers, state_of_conflicts, own_conflicts, current_binding_conflict_state,
  copies, block_recovery, evaluate_binding_conflicts, on_member, cleanup_members, confirm_absent,
  withdraw_conflict_outputs, settle_conflict, reconcile_conflict_state, same_ref, ref_of,
}

evaluate_error-Triple : (e : Error) (s : Option StateError) → Triple True (evaluate_error e s) Any
unfolding evaluate_error
evaluate_error-Triple e none = raise-Triple True Any e
evaluate_error-Triple e (some s) =
    bind-Triple Any Any _ True _ list_any-Triple λ remaining. pure-Triple True Any _ (λ h p. tt)

evaluate_failed-Triple : (plan : Result Plan) → Triple True (evaluate_failed plan) Any
unfolding evaluate_failed
evaluate_failed-Triple (ok plan) = pure-Triple True Any _ (λ h p. tt)
evaluate_failed-Triple (err e) = evaluate_error-Triple e (errors_as_state_error e)

rendered-Triple :
    (r : Reconciler) → Triple True (attempt (render_identity_for_binding r) >>= evaluate_failed) Any
rendered-Triple r =
    bind-Triple Any Any evaluate_failed True _
      (weaken-Triple True True (OnOk Any) Any _ (λ h p. tt) (λ a h q. tt)
        (attempt-Triple True Any _ (render-Triple r)))
      evaluate_failed-Triple

evaluate_present-Triple :
    (r : Reconciler) (reconciled : InferenceIdentityBinding) (identity : Plan)
    → Triple True (evaluate_present r reconciled identity) Any
unfolding Triple evaluate_present
evaluate_present-Triple r reconciled identity h b t backed =
    Runs-if (Ends Any) h _ _ _ (pure-Triple True Any (relevant identity) (λ h p. tt) h b tt backed)
      (rendered-Triple r h b tt backed)

deleted-Triple :
    (r : Reconciler) (reconciled : InferenceIdentityBinding) (identity : Plan)
    → Triple True
        (list_managed_cluster_spiffe_ids >>= λ remaining.
          if is_nil remaining then pure irrelevant else evaluate_present r reconciled identity)
        Any
deleted-Triple r reconciled identity = bind-Triple Any Any _ True _ list_any-Triple λ remaining.
    if-Triple True Any (is_nil remaining) _ _ (pure-Triple True Any irrelevant (λ h p. tt))
      (evaluate_present-Triple r reconciled identity)

evaluation-Triple :
    (r : Reconciler) (reconciled : InferenceIdentityBinding) (identity : Plan)
    → Triple True (identity_for_conflict_evaluation r reconciled identity) Any
unfolding identity_for_conflict_evaluation Triple
evaluation-Triple r reconciled identity h b t backed =
    Runs-if (Ends Any) h _ _ _ (deleted-Triple r reconciled identity h b tt backed)
      (evaluate_present-Triple r reconciled identity h b tt backed)

-- Every binding of the list is backed.
unfoldable AllBacked : List InferenceIdentityBinding → History → Type 0
AllBacked [] h = Unit
AllBacked (b ∷ bs) h = Backed h b × AllBacked bs h

AllBacked-Stable : (bs : List InferenceIdentityBinding) → Stable (AllBacked bs)
unfolding AllBacked
AllBacked-Stable [] e h p = tt
AllBacked-Stable (b ∷ bs) e h (p, q) = (Backed-Stable b e h p, AllBacked-Stable bs e h q)

AllBacked-of_mem :
    (bs : List InferenceIdentityBinding) (h : History)
    → ((b : InferenceIdentityBinding) → Memᴰ b bs → Backed h b)
    → AllBacked bs h
unfolding AllBacked
AllBacked-of_mem [] h f = tt
AllBacked-of_mem (b ∷ bs) h f =
    (f b (Memᴰ.head refl), AllBacked-of_mem bs h (λ c m. f c (Memᴰ.tail m)))

-- What a member points to is backed. The binding itself is backed as the binding of the action.
unfoldable MemberBacked : Member → History → Type 0
MemberBacked current h = Unit
MemberBacked (copy c) h = Backed h c

unfoldable MembersBacked : List Member → History → Type 0
MembersBacked [] h = Unit
MembersBacked (m ∷ ms) h = MemberBacked m h × MembersBacked ms h

MemberBacked-Stable : (m : Member) → Stable (MemberBacked m)
unfolding MemberBacked
MemberBacked-Stable current e h p = tt
MemberBacked-Stable (copy c) e h p = Backed-Stable c e h p

MembersBacked-Stable : (ms : List Member) → Stable (MembersBacked ms)
unfolding MembersBacked
MembersBacked-Stable [] e h p = tt
MembersBacked-Stable (m ∷ ms) e h (p, q) =
    (MemberBacked-Stable m e h p, MembersBacked-Stable ms e h q)

MembersBacked-append :
    (ms ns : List Member) (h : History)
    → MembersBacked ms h
    → MembersBacked ns h
    → MembersBacked (ms ++ ns) h
unfolding MembersBacked
MembersBacked-append [] ns h p q = q
MembersBacked-append (m ∷ ms) ns h (p, ps) q = (p, MembersBacked-append ms ns h ps q)

RefsBacked : List (NamespacedName × InferenceIdentityBinding) → History → Type 0
RefsBacked [] h = Unit
RefsBacked ((key, b) ∷ refs) h = Backed h b × RefsBacked refs h

RefsBacked-Stable :
    (refs : List (NamespacedName × InferenceIdentityBinding)) → Stable (RefsBacked refs)
unfolding RefsBacked
RefsBacked-Stable [] e h p = tt
RefsBacked-Stable ((key, b) ∷ refs) e h (p, q) =
    (Backed-Stable b e h p, RefsBacked-Stable refs e h q)

RefsBacked-append :
    (refs : List (NamespacedName × InferenceIdentityBinding)) (key : NamespacedName)
    → (b : InferenceIdentityBinding) (h : History) → RefsBacked refs h
    → Backed h b
    → RefsBacked (refs ++ (key, b) ∷ []) h
unfolding RefsBacked
RefsBacked-append [] key b h p q = (q, tt)
RefsBacked-append ((k, c) ∷ refs) key b h (p, ps) q = (p, RefsBacked-append refs key b h ps q)

abbrev EvaluatedBacked : Evaluated → History → Type 0
EvaluatedBacked e h = RefsBacked e.bindings_by_ref h × AllBacked e.blocked_members h

collect-Backed :
    (evaluation : PeerEvaluation) (peer : InferenceIdentityBinding) (e : Evaluated) (h : History)
    → Backed h peer
    → EvaluatedBacked e h
    → EvaluatedBacked (collect evaluation peer e) h
unfolding AllBacked
collect-Backed (relevant plan) peer e h p (refs, blocked) =
    (RefsBacked-append e.bindings_by_ref (ref_of peer) peer h refs p, blocked)
collect-Backed irrelevant peer e h p q = q
collect-Backed blocks_recovery peer e h p (refs, blocked) = (refs, (p, blocked))

evaluate_peers-Triple :
    (r : Reconciler) (identity : Plan) (items : List InferenceIdentityBinding)
    → Triple (AllBacked items) (evaluate_peers r identity items) EvaluatedBacked
unfolding evaluate_peers AllBacked RefsBacked
evaluate_peers-Triple r identity [] = pure-Triple True EvaluatedBacked _ (λ h p. (tt, tt))
evaluate_peers-Triple r identity (item ∷ rest) =
    bind-Triple (λ _. AllBacked (item ∷ rest)) EvaluatedBacked _ (AllBacked (item ∷ rest)) _
      (keep-Triple (AllBacked (item ∷ rest)) _ (AllBacked-Stable (item ∷ rest))
        (gets-Triple True (λ b. b)))
      λ reconciled.
        bind-Triple (λ x h. (Any (x.0) h × Backed h (x.1)) × AllBacked (item ∷ rest) h)
          EvaluatedBacked _ _ _
          (frame-Triple (AllBacked (item ∷ rest)) _ _ (AllBacked-Stable (item ∷ rest)) (
            on_copy-Triple (AllBacked (item ∷ rest)) Any item _ (λ h p. p.0)
              (weaken-Triple True _ Any Any _ (λ h p. tt) (λ a h q. q)
                (evaluation-Triple r reconciled identity))))
          λ x. collected (x.0) (x.1) (evaluate_peers-Triple r identity rest)
  where
    collected :
        (evaluation : PeerEvaluation) (peer : InferenceIdentityBinding)
        → Triple (AllBacked rest) (evaluate_peers r identity rest) EvaluatedBacked
        → Triple
            (λ h. (Unit × Backed h peer) × AllBacked (item ∷ rest) h)
            (evaluate_peers r identity rest >>= λ e. pure (collect evaluation peer e))
            EvaluatedBacked
    collected evaluation peer t =
        bind-Triple (λ e h. EvaluatedBacked e h × Backed h peer) EvaluatedBacked _ _ _
          (weaken-Triple (λ h. AllBacked rest h × Backed h peer) _
            (λ e h. EvaluatedBacked e h × (AllBacked rest h × Backed h peer)) _ _
            (λ h ((u, k), (p, ps)). (ps, k)) (λ e h (q, (ps, k)). (q, k))
            (frame-Triple (λ h. AllBacked rest h × Backed h peer) EvaluatedBacked _
              (λ e h (ps, k). (AllBacked-Stable rest e h ps, Backed-Stable peer e h k))
              (weaken-Triple (AllBacked rest) _ EvaluatedBacked EvaluatedBacked _ (λ h (ps, k). ps)
                (λ a h q. q) t)))
          λ e. pure-Triple _ EvaluatedBacked _ (λ h (q, k). collect-Backed evaluation peer e h k q)

lookup-MembersBacked :
    (ref : NamespacedName) (refs : List (NamespacedName × InferenceIdentityBinding)) (h : History)
    → RefsBacked refs h
    → MembersBacked (lookup_binding ref refs) h
unfolding lookup_binding RefsBacked MembersBacked MemberBacked
lookup-MembersBacked ref [] h p = tt
lookup-MembersBacked ref ((key, b) ∷ refs) h (p, ps) = elim (Bool-cases (same_ref key ref)) [
  | inl t ↦ rw t (p, tt)
  | inr f ↦ rw f (lookup-MembersBacked ref refs h ps)
]

add-MembersBacked :
    (b : InferenceIdentityBinding) (ms : List Member) (m : Member) (h : History)
    → MembersBacked ms h
    → MemberBacked m h
    → MembersBacked (append_conflict_member b ms m) h
unfolding append_conflict_member MembersBacked
add-MembersBacked b ms m h ps p =
    either (any _ ms) ms (ms ++ m ∷ []) ps (MembersBacked-append ms (m ∷ []) h ps (p, tt))
  where
    either :
        (c : Bool) (xs ys : List Member)
        → MembersBacked xs h
        → MembersBacked ys h
        → MembersBacked (if c then xs else ys) h
    either true xs ys p q = p
    either false xs ys p q = q

append_members-Backed :
    (b : InferenceIdentityBinding) (ms ns : List Member) (h : History)
    → MembersBacked ms h
    → MembersBacked ns h
    → MembersBacked (append_members b ms ns) h
unfolding append_members MembersBacked
append_members-Backed b ms [] h p q = p
append_members-Backed b ms (n ∷ ns) h p (q, qs) =
    append_members-Backed b (append_conflict_member b ms n) ns h (add-MembersBacked b ms n h p q) qs

append_peers-Backed :
    (b : InferenceIdentityBinding) (refs : List (NamespacedName × InferenceIdentityBinding))
    → (ms : List Member) (cs : List VariantConflict) (h : History) → RefsBacked refs h
    → MembersBacked ms h
    → MembersBacked (append_peers b refs ms cs) h
unfolding append_peers
append_peers-Backed b refs ms [] h p q = q
append_peers-Backed b refs ms (c ∷ cs) h p q =
    append_peers-Backed b refs (append_members b ms (lookup_binding c.peer_binding_ref refs)) cs h p
      (append_members-Backed b ms _ h q (lookup-MembersBacked c.peer_binding_ref refs h p))

copies-Backed :
    (bs : List InferenceIdentityBinding) (h : History)
    → AllBacked bs h
    → MembersBacked (copies bs) h
unfolding AllBacked MembersBacked MemberBacked
copies-Backed [] h p = tt
copies-Backed (b ∷ bs) h (p, ps) = (p, copies-Backed bs h ps)

abbrev StateBacked : BindingConflictState → History → Type 0
StateBacked s h = MembersBacked s.members h

state_of_conflicts-Backed :
    (b : InferenceIdentityBinding) (e : Evaluated) (cs : List VariantConflict) (h : History)
    → RefsBacked e.bindings_by_ref h
    → StateBacked (state_of_conflicts b e cs) h
unfolding state_of_conflicts MembersBacked
state_of_conflicts-Backed b e [] h refs = tt
state_of_conflicts-Backed b e (c ∷ cs) h refs =
    append_peers-Backed b e.bindings_by_ref _ (c ∷ cs) h refs
      (append_members-Backed b [] _ h tt (lookup-MembersBacked (ref_of b) e.bindings_by_ref h refs))

own_state-Backed :
    (b : InferenceIdentityBinding) (e : Evaluated) (h : History)
    → RefsBacked e.bindings_by_ref h
    → StateBacked (current_binding_conflict_state b e) h
unfolding current_binding_conflict_state
own_state-Backed b e h refs = state_of_conflicts-Backed b e (own_conflicts b e) h refs

conflict_state-Backed :
    (b : InferenceIdentityBinding) (e : Evaluated) (h : History)
    → EvaluatedBacked e h
    → StateBacked (block_recovery b e.blocked_members (current_binding_conflict_state b e)) h
unfolding block_recovery MemberBacked
conflict_state-Backed b e h (refs, blocked) =
    let own = own_state-Backed b e h refs in
    elim (Bool-cases (is_nil e.blocked_members)) [
      | inl t ↦ rw t own
      | inr f ↦ rw f (
          append_members-Backed b _ _ h (add-MembersBacked b _ current h own tt)
            (copies-Backed e.blocked_members h blocked))
    ]

listed-Backed :
    (namespace : Text) (h : History) (reply : Result (List InferenceIdentityBinding))
    → OnOk AllBacked reply (event (list_bindings namespace) reply ∷ h)
unfolding OnOk Shows
listed-Backed namespace h (ok items) = AllBacked-of_mem items _ (λ b m. Shows-Backed _ h b m)
listed-Backed namespace h (err e) = tt

evaluate-Triple :
    (r : Reconciler) (identity : Plan)
    → Triple True (evaluate_binding_conflicts r identity) StateBacked
unfolding evaluate_binding_conflicts Permitted
evaluate-Triple r identity = bind-Triple Any StateBacked _ True _ (gets-Triple True _) λ namespace.
    bind-Triple (OnOk AllBacked) StateBacked _ True _
      (perform-Triple True (list_bindings namespace) (OnOk AllBacked) (λ h p. tt)
        (λ h reply p. listed-Backed namespace h reply))
      λ reply.
        bind-Triple AllBacked StateBacked _ (OnOk AllBacked reply) _
          (lift-Triple (OnOk AllBacked reply) AllBacked reply (λ h p. p))
          λ items.
            bind-Triple EvaluatedBacked StateBacked _ _ _ (evaluate_peers-Triple r identity items)
              λ e.
                computes-Triple (EvaluatedBacked e) StateBacked _
                  (λ h b p. conflict_state-Backed b e h p)

on_member-Triple :
    {A : Type 0} (member : Member) (m : Action A)
    → Triple True m Any
    → Triple (MemberBacked member) (on_member member m) (λ x. MemberBacked (x.1))
unfolding on_member MemberBacked
on_member-Triple current m t =
    bind-Triple Any _ _ True _ t λ a. pure-Triple True _ (a, current) (λ h p. tt)
on_member-Triple (copy c) m t =
    bind-Triple (λ x h. Any (x.0) h × Backed h (x.1)) _ _ _ _
      (on_copy-Triple (λ h. Backed h c) Any c m (λ h p. p)
        (weaken-Triple True _ Any Any m (λ h p. tt) (λ a h q. q) t))
      λ x. pure-Triple _ _ (x.0, copy (x.1)) (λ h p. p.1)

-- One member is dealt with; the others stay backed.
first_member-Triple :
    {A : Type 0} (m : Member) (ms : List Member) (act : Action A)
    → Triple True act Any
    → Triple
        (MembersBacked (m ∷ ms))
        (on_member m act)
        (λ x h. MemberBacked (x.1) h × MembersBacked ms h)
unfolding MembersBacked
first_member-Triple m ms act t =
    weaken-Triple (MembersBacked (m ∷ ms)) _
      (λ x h. MemberBacked (x.1) h × MembersBacked (m ∷ ms) h) _ _ (λ h p. p)
      (λ x h (q, p). (q, p.1))
      (frame-Triple (MembersBacked (m ∷ ms)) _ _ (MembersBacked-Stable (m ∷ ms)) (
        weaken-Triple (MemberBacked m) _ _ _ _ (λ h p. p.0) (λ x h q. q)
          (on_member-Triple m act t)))

cleanup_members-Triple :
    (ms : List Member) → Triple (MembersBacked ms) (cleanup_members ms) MembersBacked
unfolding cleanup_members MembersBacked
cleanup_members-Triple [] = pure-Triple _ MembersBacked [] (λ h p. tt)
cleanup_members-Triple (m ∷ ms) =
    bind-Triple (λ x h. MemberBacked (x.1) h × MembersBacked ms h) MembersBacked _ _ _
      (first_member-Triple m ms _ cleanup-Triple)
      λ x.
        bind-Triple (λ others h. MembersBacked others h × MemberBacked (x.1) h) MembersBacked _ _ _
          (weaken-Triple (λ h. MemberBacked (x.1) h × MembersBacked ms h) _
            (λ others h. MembersBacked others h × (MemberBacked (x.1) h × MembersBacked ms h)) _ _
            (λ h p. p) (λ others h (q, p). (q, p.0))
            (frame-Triple (λ h. MemberBacked (x.1) h × MembersBacked ms h) _ _
              (λ e h (p, ps). (MemberBacked-Stable (x.1) e h p, MembersBacked-Stable ms e h ps))
              (weaken-Triple (MembersBacked ms) _ MembersBacked MembersBacked _ (λ h p. p.1)
                (λ a h q. q) (cleanup_members-Triple ms))))
          λ others. pure-Triple _ MembersBacked _ (λ h (q, p). (p, q))

confirm_absent-Triple : (ms : List Member) → Triple (MembersBacked ms) (confirm_absent ms) Any
unfolding confirm_absent MembersBacked
confirm_absent-Triple [] = pure-Triple _ Any true (λ h p. tt)
confirm_absent-Triple (m ∷ ms) =
    bind-Triple (λ x h. MemberBacked (x.1) h × MembersBacked ms h) Any _ _ _
      (first_member-Triple m ms _ list_any-Triple)
      λ x. if-Triple _ Any _ _ _ (pure-Triple _ Any false (λ h p. tt)) (
        weaken-Triple (MembersBacked ms) _ Any Any _ (λ h p. p.1) (λ a h q. q)
          (confirm_absent-Triple ms))

withdraw-Triple : (ms : List Member) → Triple (MembersBacked ms) (withdraw_conflict_outputs ms) Any
unfolding withdraw_conflict_outputs
withdraw-Triple ms =
    bind-Triple MembersBacked Any _ _ _ (cleanup_members-Triple ms) confirm_absent-Triple

settle_conflict-Triple :
    (r : Reconciler) (state : BindingConflictState) (absent : Bool)
    → Triple True (settle_conflict r state absent) Any
unfolding settle_conflict SameOwnership
settle_conflict-Triple r state absent =
    if-Triple True Any _ _ _
      (bind-Triple Any Any _ True _
        (modify-Triple True _
          λ b. apply_pending_conflict_status-KeepsOwnership r.platform b.generation b.status)
        λ _.
          bind-Triple Any Any _ True _ (patch_status-Triple r.platform)
            λ _. pure-Triple True Any _ (λ h p. tt))
      (bind-Triple Any Any _ True _
        (modify-Triple True _ λ b.
          apply_conflict_status-KeepsOwnership r.platform b.generation state.conflicts b.status)
        λ _. bind-Triple Any Any _ True _ (patch_status-Triple r.platform) λ _.
          bind-Triple Any Any _ True _ (outcome-Triple r) λ _. pure-Triple True Any _ (λ h p. tt))

pub conflict-Triple :
    (r : Reconciler) (identity : Plan) → Triple True (reconcile_conflict_state r identity) Any
unfolding reconcile_conflict_state
conflict-Triple r identity =
    bind-Triple StateBacked Any _ True _
      (with_failure_status-Triple StateBacked True r _ (evaluate-Triple r identity))
      λ state. if-Triple _ Any _ _ _ (pure-Triple _ Any none (λ h p. tt)) (
        bind-Triple Any Any _ _ _
          (with_failure_status-Triple Any (StateBacked state) r _ (withdraw-Triple state.members))
          λ absent. settle_conflict-Triple r state absent)
