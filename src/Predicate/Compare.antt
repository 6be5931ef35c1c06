-- ===== src/Predicate/Compare.antt =====
-- The operators of engine/predicate.py and schemas/config.py, and `compare`.
use optimaler_status.Base.{
  ◌≡◌, refl, Bool, true, false, ◌||◌, not, Option, none, some, String, if◌then◌else◌,
}
use optimaler_status.Base.Int.{pos}
use optimaler_status.Python.Result.{Result, ok, ◌>>=◌}
use optimaler_status.Python.Float
use optimaler_status.Python.Float.{Float, finite}
use optimaler_status.Python.Value.{
  Value, Items, bool, int, float, str, seq, nil, cons, is_bool, same_bool, is_substring, py_eq,
}

pub data Op : Type 0 where
  eq ne gt ge lt le is_in : Op

pub data TextOp : Type 0 where
  contains matches : TextOp

pub data AnyOp : Type 0 where
  op : Op → AnyOp
  text_op : TextOp → AnyOp

-- Unicode case folding, and `re.compile` with IGNORECASE: `none` where the pattern does not
-- compile, and else the test `pattern.search(text) is not None`.
pub record TextLib : Type 0 where
  pub casefold : String → String
  pub compile : String → Option (String → Bool)

unfoldable pub as_number : Value → Result (Option Float)
unfolding Float.of_int
as_number (bool b) = ok none
as_number (int n) = do x ← Float.of_int n; ok (some x)
as_number (float x) = ok (some x)
as_number _ = ok none

abbrev pub equal_numbers : Value → Value → Option Float → Option Float → Bool
equal_numbers left right (some x) (some y) = Float.eq x y
equal_numbers left right _ _ = py_eq left right

abbrev pub same_booleans : Value → Value → Bool
same_booleans (bool a) (bool b) = same_bool a b
same_booleans _ _ = false

unfoldable pub equal : Value → Value → Result Bool
unfolding as_number py_eq Float.eq
equal left right = if is_bool left || is_bool right then ok (same_booleans left right) else do
  left_number ← as_number left
  right_number ← as_number right
  ok (equal_numbers left right left_number right_number)

-- any(_equal(left, item) for item in right): the first hit ends the search.
unfoldable pub equal_any : Value → Items → Result Bool
unfolding equal
equal_any left nil = ok false
equal_any left (cons item rest) =
    let later = equal_any left rest in equal left item >>= λ hit. if hit then ok true else later

unfoldable pub contained : Value → Value → Result Bool
unfolding equal_any
contained left (seq items) = equal_any left items
contained (str t) (str s) = ok (is_substring t s)
contained left _ = ok false

abbrev pub order : Op → Float → Float → Bool
order gt x y = Float.lt y x
order ge x y = Float.le y x
order lt x y = Float.lt x y
order _ x y = Float.le x y

abbrev pub order_numbers : Op → Option Float → Option Float → Bool
order_numbers o (some x) (some y) = order o x y
order_numbers o _ _ = false

compare_order : Op → Value → Value → Result Bool
unfolding as_number Float.lt Float.le
compare_order o left right = do
  left_number ← as_number left
  right_number ← as_number right
  ok (order_numbers o left_number right_number)

-- The branch of `compare` for the operators of the contract.
unfoldable pub compare_op : Op → Value → Value → Result Bool
unfolding equal contained compare_order
compare_op eq left right = equal left right
compare_op ne left right = do same ← equal left right; ok (not same)
compare_op is_in left right = contained left right
compare_op o left right = compare_order o left right

unfoldable pub compare_text : TextLib → TextOp → Value → Value → Bool
compare_text t contains (str left) (str right) = is_substring (t.casefold right) (t.casefold left)
compare_text t matches (str left) (str right) = elim (t.compile right) [
  | none ↦ false
  | some search ↦ search left
]
compare_text t o left right = false

unfoldable pub compare : TextLib → AnyOp → Value → Value → Result Bool
unfolding compare_op compare_text
compare t (op o) left right = compare_op o left right
compare t (text_op o) left right = ok (compare_text t o left right)

-- `True != 1`, and 1 == 1.0.
true_is_not_one : compare_op eq (bool true) (int (pos 1)) ≡ ok false
unfolding compare_op
true_is_not_one = refl

one_is_one : compare_op eq (int (pos 1)) (float (finite (pos Float.one))) ≡ ok true
unfolding compare_op Float.one
one_is_one = refl

within : compare_op is_in (str "ab") (str "cabd") ≡ ok true
unfolding compare_op
within = refl
