-- ===== src/Inspection/Print/Details.antt =====
-- For which conditions the text output gives the reason and the message.
use kleym.Prelude.{◌≡◌, refl, Bool, true, false, not}
use kleym.Prelude.Text.{codes, text_eq}
use kleym.Api.{ConditionStatus, condition_true, condition_false, condition_unknown, Condition}
use kleym.Controller.Status.Conditions.{
  Kind, ready, invalid_ref, unsafe_selector, conflict, render_failure, name_of,
}
use kleym.Inspection.Print.{text_condition_needs_detail}

-- A condition of the controller that tells of trouble: Ready is not True, or a failure is not False.
unfoldable pub is_trouble : Kind → ConditionStatus → Bool
is_trouble kind condition_unknown = true
is_trouble ready condition_true = false
is_trouble ready condition_false = true
is_trouble _ condition_true = true
is_trouble _ condition_false = false

abbrev pub swap_conflict : Kind → ConditionStatus → Bool → Bool
swap_conflict kind condition_unknown b = b
swap_conflict conflict status b = not b
swap_conflict _ status b = b

by_kind :
    (kind : Kind) (status : ConditionStatus) (c : Condition)
    → text_condition_needs_detail (record c { condition_type = name_of kind; status = status })
      ≡ swap_conflict kind status (is_trouble kind status)
unfolding text_condition_needs_detail is_trouble codes text_eq
by_kind ready condition_true c = refl
by_kind ready condition_false c = refl
by_kind ready condition_unknown c = refl
by_kind invalid_ref condition_true c = refl
by_kind invalid_ref condition_false c = refl
by_kind invalid_ref condition_unknown c = refl
by_kind unsafe_selector condition_true c = refl
by_kind unsafe_selector condition_false c = refl
by_kind unsafe_selector condition_unknown c = refl
by_kind conflict condition_true c = refl
by_kind conflict condition_false c = refl
by_kind conflict condition_unknown c = refl
by_kind render_failure condition_true c = refl
by_kind render_failure condition_false c = refl
by_kind render_failure condition_unknown c = refl

-- Of the conditions that the controller sets, the text output gives the reason and the message exactly of those
-- that tell of trouble; for Conflict, unless its status is Unknown, it is the other way round: they are left out
-- when there is a conflict and given when there is none.
pub text_condition_needs_detail-eq :
    (kind : Kind) (c : Condition)
    → c.condition_type ≡ name_of kind
    → text_condition_needs_detail c ≡ swap_conflict kind c.status (is_trouble kind c.status)
unfolding text_condition_needs_detail is_trouble
text_condition_needs_detail-eq kind c h = rw h (by_kind kind c.status c)
