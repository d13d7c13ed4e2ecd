-- ===== src/Inspection/Status/Bindings/Ready.antt =====
-- A binding of the result OK is one whose condition Ready is True.
use kleym.Prelude.{◌≡◌, refl, Option, none, some, List, [], ◌∷◌, All}
use kleym.Prelude.Text.{Text, codes}
use kleym.Api.{
  ConditionStatus, condition_true, condition_false, condition_unknown, Condition,
  InferenceIdentityBinding,
}
use kleym.Inspection.Status.{StatusResult}
use kleym.Inspection.Status.Bindings.{binding_result, result_of, result_of_status}

-- A binding has the condition Ready, and its status is True.
abbrev pub IsReady : (List Condition → Text → Option Condition) → InferenceIdentityBinding → Type 0
IsReady find b =
    (c : Condition) × (find b.status.conditions (codes "Ready") ≡ some c)
    × (c.status ≡ condition_true)

status-IsReady : (s : ConditionStatus) → result_of_status s ≡ StatusResult.okay → s ≡ condition_true
status-IsReady condition_true h = refl
status-IsReady condition_false h = cc
status-IsReady condition_unknown h = cc

result-IsReady :
    (found : Option Condition)
    → result_of found ≡ StatusResult.okay
    → (c : Condition) × (found ≡ some c) × (c.status ≡ condition_true)
result-IsReady none h = cc
result-IsReady (some c) h = (c, refl, status-IsReady c.status h)

pub All-IsReady :
    (find : List Condition → Text → Option Condition) (bs : List InferenceIdentityBinding)
    → All (λ b. binding_result find b ≡ StatusResult.okay) bs
    → All (IsReady find) bs
unfolding binding_result
All-IsReady find [] h = tt
All-IsReady find (b ∷ bs) (h, hs) =
    (result-IsReady (find b.status.conditions (codes "Ready")) h, All-IsReady find bs hs)
