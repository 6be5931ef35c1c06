-- ===== src/Predicate/Totality.antt =====
-- When `compare` and `evaluate` return, and when they raise.
use optimaler_status.Base.{
  String, ◌||◌, ◌≤◌, ◌<◌, ◌≡◌, refl, ◌≢◌, Bool, true, false, inl, inr, arith, leb, leb→le, le→leb,
  Bool-cases, if◌then◌else◌,
}
use optimaler_status.Base.Int.{ℤ, magnitude}
use optimaler_status.Python.Result.{Result, ok, err, overflow_error, ◌>>=◌}
use optimaler_status.Python.Float.{overflow_limit}
use optimaler_status.Python.Value.{Value, Items, null, int, str, seq, nil, cons, is_bool}
use optimaler_status.Predicate.Compare.{
  Op, eq, ne, is_in, AnyOp, op, text_op, TextLib, as_number, equal, equal_any, contained,
  compare_op, compare,
}
use optimaler_status.Predicate.Ast.{
  Context, Node, Nodes, comparison, all_of, any_of, field_value, compare_present, and_then, or_else,
  evaluate, evaluate_all, evaluate_any,
}
use optimaler_status.Predicate.Ast

-- Only an int can be out of the range of a float.
abbrev pub InRange : Value → Type 0
InRange (int n) = magnitude n < overflow_limit
InRange _ = Unit

abbrev pub ItemsInRange : Items → Type 0
ItemsInRange nil = Unit
ItemsInRange (cons v vs) = InRange v × ItemsInRange vs

-- A value that `compare` reads: the members of a list count for `in`.
abbrev pub IsRanged : Value → Type 0
IsRanged (seq vs) = ItemsInRange vs
IsRanged v = InRange v

abbrev pub Returns {ℓ} : {A : Type ℓ} → Result A → Type 0
Returns (ok a) = Unit
Returns (err e) = ⊥

Returns-bind {ℓ κ} :
    {A : Type ℓ} {B : Type κ} (m : Result A) (f : A → Result B)
    → Returns m
    → ((a : A) → Returns (f a))
    → Returns (m >>= f)
Returns-bind (ok a) f h k = k a
Returns-bind (err e) f h k = absurd h

as_number-Returns : (v : Value) → InRange v → Returns (as_number v)
unfolding as_number
as_number-Returns (int n) h = elim (Bool-cases (leb overflow_limit (magnitude n))) [
  | inl big ↦ absurd (omega (arith, leb→le overflow_limit (magnitude n) big))
  | inr small ↦ rw small tt
]
as_number-Returns null h = tt
as_number-Returns _ h = tt

InRange-IsRanged : (v : Value) → IsRanged v → InRange v
InRange-IsRanged (seq vs) h = tt
InRange-IsRanged null h = h
InRange-IsRanged (int n) h = h
InRange-IsRanged _ h = tt

Returns-if {ℓ} :
    {A : Type ℓ} (b : Bool) (x y : Result A) → Returns x → Returns y → Returns (if b then x else y)
Returns-if true x y h k = h
Returns-if false x y h k = k

equal-Returns : (v w : Value) → InRange v → InRange w → Returns (equal v w)
unfolding equal
equal-Returns v w h k = Returns-if (is_bool v || is_bool w) _ _ tt (
    Returns-bind (as_number v) _ (as_number-Returns v h)
      λ x. Returns-bind (as_number w) _ (as_number-Returns w k) λ y. tt)

equal_any-Returns :
    (v : Value) (vs : Items) → InRange v → ItemsInRange vs → Returns (equal_any v vs)
unfolding equal_any
equal_any-Returns v nil h k = tt
equal_any-Returns v (cons w vs) h k =
    Returns-bind (equal v w) _ (equal-Returns v w h k.0)
      λ hit. Returns-if hit _ _ tt (equal_any-Returns v vs h k.1)

contained-Returns : (v w : Value) → InRange v → IsRanged w → Returns (contained v w)
unfolding contained
contained-Returns v (seq vs) h k = equal_any-Returns v vs h k
contained-Returns (str t) (str s) h k = tt
contained-Returns v w h k = tt

pub compare_op-Returns :
    (o : Op) (v w : Value) → IsRanged v → IsRanged w → Returns (compare_op o v w)
unfolding compare_op
compare_op-Returns eq v w h k = equal-Returns v w (InRange-IsRanged v h) (InRange-IsRanged w k)
compare_op-Returns ne v w h k =
    Returns-bind (equal v w) _ (equal-Returns v w (InRange-IsRanged v h) (InRange-IsRanged w k))
      λ same. tt
compare_op-Returns is_in v w h k = contained-Returns v w (InRange-IsRanged v h) k
compare_op-Returns o v w h k =
    Returns-bind (as_number v) _ (as_number-Returns v (InRange-IsRanged v h))
      λ x. Returns-bind (as_number w) _ (as_number-Returns w (InRange-IsRanged w k)) λ y. tt

-- Where no int of the operands, list members included, is past the largest float, `compare`
-- returns a Boolean, whatever the operator and the shapes of the operands.
pub compare-Returns :
    (t : TextLib) (o : AnyOp) (v w : Value) → IsRanged v → IsRanged w → Returns (compare t o v w)
unfolding compare
compare-Returns t (op o) v w h k = compare_op-Returns o v w h k
compare-Returns t (text_op o) v w h k = tt

overflow : (n : ℤ) → overflow_limit ≤ magnitude n → as_number (int n) ≡ err overflow_error
unfolding as_number
overflow n h = rw (le→leb overflow_limit (magnitude n) h)

-- With an int past the largest float on the left, every contract operator but `in` raises
-- OverflowError, unless the right side is a Boolean.
pub compare_op_overflow :
    (t : TextLib) (o : Op) (n : ℤ) (w : Value)
    → overflow_limit ≤ magnitude n
    → o ≢ is_in
    → is_bool w ≡ false
    → compare t (op o) (int n) w ≡ err overflow_error
unfolding compare
compare_op_overflow t eq n w big other plain = rw (plain, overflow n big)
compare_op_overflow t ne n w big other plain = rw (plain, overflow n big)
compare_op_overflow t is_in n w big other plain = absurd (other refl)
compare_op_overflow t o n w big other plain = rw (overflow n big)

-- The values that a predicate meets in a context, and its literals.
mutual
  pub data Fits (context : Context) : Node → Type 0 where
    fits_comparison :
        (name : String) (o : AnyOp) (right : Value)
        → IsRanged (field_value context name)
        → IsRanged right
        → Fits context (comparison name o right)
    fits_all : (ns : Nodes) → FitsEach context ns → Fits context (all_of ns)
    fits_any : (ns : Nodes) → FitsEach context ns → Fits context (any_of ns)

  pub data FitsEach (context : Context) : Nodes → Type 0 where
    fits_nil : FitsEach context Ast.nil
    fits_cons :
        (n : Node) (ns : Nodes)
        → Fits context n
        → FitsEach context ns
        → FitsEach context (Ast.cons n ns)

pub Returns-and_then : (a b : Result Bool) → Returns a → Returns b → Returns (and_then a b)
Returns-and_then (ok true) b h k = k
Returns-and_then (ok false) b h k = tt
Returns-and_then (err e) b h k = h

Returns-or_else : (a b : Result Bool) → Returns a → Returns b → Returns (or_else a b)
Returns-or_else (ok true) b h k = tt
Returns-or_else (ok false) b h k = k
Returns-or_else (err e) b h k = h

compare_present-Returns :
    (t : TextLib) (o : AnyOp) (v w : Value)
    → IsRanged v
    → IsRanged w
    → Returns (compare_present t o v w)
compare_present-Returns t o null w h k = tt
compare_present-Returns t o v w h k = compare-Returns t o v w h k

mutual
  unfolding evaluate

  node-Returns :
      (t : TextLib) (context : Context) (n : Node) → Fits context n → Returns (evaluate t context n)
  node-Returns t context (comparison name o right) (fits_comparison _ _ _ h k) =
      compare_present-Returns t o (field_value context name) right h k
  node-Returns t context (all_of ns) (fits_all _ h) = all-Returns t context ns h
  node-Returns t context (any_of ns) (fits_any _ h) = any-Returns t context ns h

  all-Returns :
      (t : TextLib) (context : Context) (ns : Nodes)
      → FitsEach context ns
      → Returns (evaluate_all t context ns)
  all-Returns t context Ast.nil h = tt
  all-Returns t context (Ast.cons n ns) (fits_cons _ _ h k) =
      Returns-and_then (evaluate t context n) (evaluate_all t context ns)
        (node-Returns t context n h) (all-Returns t context ns k)

  any-Returns :
      (t : TextLib) (context : Context) (ns : Nodes)
      → FitsEach context ns
      → Returns (evaluate_any t context ns)
  any-Returns t context Ast.nil h = tt
  any-Returns t context (Ast.cons n ns) (fits_cons _ _ h k) =
      Returns-or_else (evaluate t context n) (evaluate_any t context ns)
        (node-Returns t context n h) (any-Returns t context ns k)

-- A predicate whose literals and whose fields' values hold no int past the largest float
-- evaluates to a Boolean.
pub evaluate-Returns :
    (t : TextLib) (context : Context) (n : Node) → Fits context n → Returns (evaluate t context n)
evaluate-Returns t context n h = node-Returns t context n h
