-- ===== src/Inspection/Status/Operator/Ready.antt =====
-- A report without an error shows an operator with a ready replica.
use mathlib.Core.List.{Memᴰ}
use mathlib.Core.Logic.{∥∥₁_map}
use kleym.Prelude.{
  ◌≡◌, refl, sym, subst, ◌≤◌, ltb, Bool-cases, inl, inr, Option, none, some, List, [], ◌∷◌, ◌++◌,
  Mem, arith,
}
use kleym.Prelude.Text.{codes}
use kleym.Errors.{Result, ok, err}
use kleym.Cluster.{Call, Reply, run, perform, Container, Deployment, list_deployments}
use kleym.Inspection.Status.{StatusResult, OperatorStatus, StatusComponents, StatusReport}
use kleym.Inspection.Status.Sound.{Sound, Keeps, Keeps-bind, error_added}
use kleym.Inspection.Status.Dependencies.Served.{InCrds}
use kleym.Inspection.Status.Operator.{
  operator_labels, operator_finding, ready_deployment, operator_status_from_deployment,
  fill_config_from_deployment, operator_container, fill_config_from_args, report_ready,
  report_deployments, after_list, inspect_operator,
}

-- The cluster lists a Deployment with the labels of the operator that has a ready replica, and a status shows it.
abbrev pub ShowsReady : ((c : Call) → Reply c) → OperatorStatus → Type 0
ShowsReady answer s =
    (ds : List Deployment) × (d : Deployment) × (answer (
        list_deployments (
          (codes "app.kubernetes.io/name", codes "kleym")
          ∷ (codes "app.kubernetes.io/component", codes "operator")
          ∷ []))
      ≡ ok ds)
    × Mem d ds
    × (1 ≤ d.ready_replicas)
    × (s.ready_replicas ≡ d.ready_replicas)
    × (s.deployment ≡ d.namespace ++ codes "/" ++ d.name)

abbrev pub InOperator : ((c : Call) → Reply c) → StatusComponents → Type 0
InOperator answer c =
    (c.operator.status ≡ StatusResult.okay) × ShowsReady answer c.operator × InCrds answer c

some_same : (x d : Deployment) → some x ≡ some d → x ≡ d
some_same x d h = cc

ready_deployment-mem :
    (ds : List Deployment) (d : Deployment)
    → ready_deployment ds ≡ some d
    → Mem d ds × (1 ≤ d.ready_replicas)
unfolding ready_deployment
ready_deployment-mem [] d h = cc
ready_deployment-mem (x ∷ ds) d h = elim (Bool-cases (ltb 0 x.ready_replicas)) [
  | inl t ↦
      let same : x ≡ d = some_same x d (rw t at h) in
      (∣ Memᴰ.head (sym same) ∣₁, subst (λ y. 1 ≤ y.ready_replicas) same (ground (arith, t)))
  | inr f ↦ let (m, ready) = ready_deployment-mem ds d (rw f at h) in (∥∥₁_map m Memᴰ.tail, ready)
]

module _ (answer : (c : Call) → Reply c) where
  abbrev pub HasOperator : StatusReport → Type 0
  HasOperator r = InOperator answer r.components

  fill_config-keeps :
      (c : Option Container) (r : StatusReport)
      → Sound HasOperator r
      → Sound HasOperator (elim c as (λ x. StatusReport) [
        | none ↦ r
        | some c ↦ record r { config = fill_config_from_args c.args r.config }
      ])
  fill_config-keeps none r h = h
  fill_config-keeps (some c) r h = h

  report_ready-Sound :
      (ds : List Deployment) (d : Deployment) (ready : Option Deployment) (r : StatusReport)
      → answer (list_deployments operator_labels) ≡ ok ds
      → ready_deployment ds ≡ ready
      → Sound (λ r. InCrds answer r.components) r
      → Sound HasOperator (report_ready d ready r)
  unfolding report_ready operator_finding operator_status_from_deployment
      fill_config_from_deployment
  report_ready-Sound ds d (some ready) r listed found sound =
      let (m, replicas) = ready_deployment-mem ds ready found in
      fill_config-keeps (operator_container ready.containers) _
        λ clean. (refl, (ds, ready, listed, m, replicas, refl, refl), sound clean)
  report_ready-Sound ds d none r listed found sound = error_added _ r.findings _ refl

  report_deployments-Sound :
      (ds : List Deployment) (r : StatusReport)
      → answer (list_deployments operator_labels) ≡ ok ds
      → Sound (λ r. InCrds answer r.components) r
      → Sound HasOperator (report_deployments ds r)
  unfolding report_deployments operator_finding
  report_deployments-Sound [] r listed sound = error_added _ r.findings _ refl
  report_deployments-Sound (d ∷ ds) r listed sound =
      report_ready-Sound (d ∷ ds) d (ready_deployment (d ∷ ds)) r listed refl sound

  after_list-Sound :
      (reply : Result (List Deployment)) (r : StatusReport)
      → reply ≡ run answer (perform (list_deployments operator_labels))
      → Sound (λ r. InCrds answer r.components) r
      → (after_list reply r).0 ≡ none
      → Sound HasOperator (after_list reply r).1
  unfolding after_list run
  after_list-Sound (ok ds) r same sound h = report_deployments-Sound ds r (sym same) sound
  after_list-Sound (err e) r same sound h = cc

  pub inspect_operator-Keeps :
      Keeps answer (λ r. InCrds answer r.components) HasOperator inspect_operator
  unfolding inspect_operator
  inspect_operator-Keeps =
      Keeps-bind answer (λ r. InCrds answer r.components) HasOperator
        (perform (list_deployments operator_labels)) after_list after_list-Sound
