-- ===== src/Python/Value.antt =====
-- The objects that YAML and JSON files hold, and `==` on them. Keys of a mapping are strings and
-- unique; a list stands for tuples and sets too.
use text.Mathlib.Text.{find?}
use optimaler_status.Base.{
  ℕ, suc, ◌*◌, ◌-◌, ◌≡◌, refl, Bool, true, false, ◌&&◌, Option, none, some, String, str_eq, ◌==◌,
  if◌then◌else◌, is_some,
}
use optimaler_status.Base.Int.{ℤ, pos, negsuc}
use optimaler_status.Python.Float.{Float, finite, eq, one}

mutual
  pub data Value : Type 0 where
    null : Value
    bool : Bool → Value
    int : ℤ → Value
    float : Float → Value
    str : String → Value
    seq : Items → Value
    mapping : Fields → Value

  pub data Items : Type 0 where
    nil : Items
    cons : Value → Items → Items

  pub data Fields : Type 0 where
    end : Fields
    field : String → Value → Fields → Fields

-- m.get(k)
unfoldable pub field_of : Fields → String → Option Value
field_of end k = none
field_of (field j v fs) k = if str_eq j k then some v else field_of fs k

unfoldable pub has_field : Fields → String → Bool
unfolding field_of
has_field fs k = is_some (field_of fs k)

-- len(m)
unfoldable pub field_count : Fields → ℕ
field_count end = 0
field_count (field k v fs) = suc (field_count fs)

-- t in s, for strings
abbrev pub is_substring : String → String → Bool
is_substring t s = is_some (find? s t)

abbrev pub is_null : Value → Bool
is_null null = true
is_null _ = false

abbrev pub is_bool : Value → Bool
is_bool (bool b) = true
is_bool _ = false

abbrev pub same_bool : Bool → Bool → Bool
same_bool true true = true
same_bool false false = true
same_bool _ _ = false

-- An int as the exact multiple of 2^-1074: `==` between an int and a float does not round.
exact : ℤ → Float
unfolding one
exact (pos n) = finite (pos (n * one))
exact (negsuc n) = finite (negsuc (suc n * one - 1))

-- The number that a value is for `==`, where booleans are 0 and 1.
number_of : Value → Option Float
unfolding exact
number_of (bool true) = some (exact (pos 1))
number_of (bool false) = some (exact (pos 0))
number_of (int n) = some (exact n)
number_of (float x) = some x
number_of _ = none

eq_number : Option Float → Option Float → Bool
unfolding eq
eq_number (some x) (some y) = eq x y
eq_number _ _ = false

unfoldable mutual
  unfolding number_of eq_number field_of field_count

  -- v == w
  pub py_eq : Value → Value → Bool
  py_eq null w = is_null w
  py_eq (bool b) w = eq_number (number_of (bool b)) (number_of w)
  py_eq (int n) w = eq_number (number_of (int n)) (number_of w)
  py_eq (float x) w = eq_number (number_of (float x)) (number_of w)
  py_eq (str s) (str t) = str_eq s t
  py_eq (str s) _ = false
  py_eq (seq xs) (seq ys) = items_eq xs ys
  py_eq (seq xs) _ = false
  py_eq (mapping fs) (mapping gs) = field_count fs == field_count gs && fields_eq fs gs
  py_eq (mapping fs) _ = false

  pub items_eq : Items → Items → Bool
  items_eq nil nil = true
  items_eq nil (cons w ys) = false
  items_eq (cons v xs) nil = false
  items_eq (cons v xs) (cons w ys) = py_eq v w && items_eq xs ys

  pub fields_eq : Fields → Fields → Bool
  fields_eq end gs = true
  fields_eq (field k v fs) gs = elim (field_of gs k) [
    | none ↦ false
    | some w ↦ py_eq v w && fields_eq fs gs
  ]

one_is_true : py_eq (seq (cons (int (pos 1)) nil)) (seq (cons (bool true) nil)) ≡ true
unfolding py_eq
one_is_true = refl

order_of_keys :
    py_eq
      (mapping (field "a" null (field "b" (str "x") end)))
      (mapping (field "b" (str "x") (field "a" null end)))
    ≡ true
unfolding py_eq
order_of_keys = refl
