-- ===== src/Value.antt =====
-- `map[string]any`, the decoded form of a Kubernetes object. The fields of an object stand in the order in
-- which Go happens to range over the map: any order, so every order is a possible input.
use kleym.Prelude.{ℕ, suc, Bool, true, false, ◌&&◌, Option, none, some, if◌then◌else◌, ◌==◌}
use kleym.Prelude.Text.{Text, text_eq}

-- `scalar` is any value that is no text, boolean, array or object, by its JSON text.
mutual
  pub data Value : Type 0 where
    text : Text → Value
    boolean : Bool → Value
    scalar : Text → Value
    array : Items → Value
    object : Fields → Value

  pub data Items : Type 0 where
    nil : Items
    item : Value → Items → Items

  pub data Fields : Type 0 where
    end : Fields
    field : Text → Value → Fields → Fields

abbrev pub field_count : Fields → ℕ
field_count end = 0
field_count (field k v fs) = suc (field_count fs)

unfoldable pub lookup_field : Text → Fields → Option Value
lookup_field k end = none
lookup_field k (field j v fs) = if text_eq j k then some v else lookup_field k fs

abbrev bool_eq : Bool → Bool → Bool
bool_eq true b = b
bool_eq false true = false
bool_eq false false = true

-- `reflect.DeepEqual`: maps are equal as maps, whatever the order of their fields.
unfoldable mutual
  unfolding text_eq lookup_field

  pub deep_equal : Value → Value → Bool
  deep_equal (text s) (text t) = text_eq s t
  deep_equal (boolean a) (boolean b) = bool_eq a b
  deep_equal (scalar s) (scalar t) = text_eq s t
  deep_equal (array xs) (array ys) = items_equal xs ys
  deep_equal (object fs) (object gs) = field_count fs == field_count gs && fields_within fs gs
  deep_equal _ _ = false

  pub items_equal : Items → Items → Bool
  items_equal nil nil = true
  items_equal (item x xs) (item y ys) = deep_equal x y && items_equal xs ys
  items_equal _ _ = false

  -- Every field of the first map stands in the second with an equal value.
  pub fields_within : Fields → Fields → Bool
  fields_within end gs = true
  fields_within (field k v fs) gs =
      elim (lookup_field k gs) [ none ↦ false | some w ↦ deep_equal v w ] && fields_within fs gs
