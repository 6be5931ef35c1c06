-- ===== src/Predicate/Semantics.antt =====
-- What a predicate means, by its shape, and that evaluation decides it.
use optimaler_status.Base.{◌≡◌, refl, Bool, true, false, ◌⊎◌, inl, inr, arith, String}
use optimaler_status.Python.Result.{Result, ok, err}
use optimaler_status.Python.Value.{Value}
use optimaler_status.Predicate.Compare.{TextLib, AnyOp}
use optimaler_status.Predicate.Ast.{
  Context, Node, Nodes, comparison, all_of, any_of, nil, cons, field_value, compare_present,
  and_then, or_else, evaluate, evaluate_all, evaluate_any,
}

-- A comparison holds where `compare` says so; the connectives are "and" and "or" over the children.
mutual
  pub data Holds (t : TextLib) (context : Context) : Node → Type 0 where
    holds_comparison :
        {name : String} {o : AnyOp} {right : Value}
        → compare_present t o (field_value context name) right ≡ ok true
        → Holds t context (comparison name o right)
    holds_all : {ns : Nodes} → HoldsEach t context ns → Holds t context (all_of ns)
    holds_any : {ns : Nodes} → HoldsSome t context ns → Holds t context (any_of ns)

  pub data HoldsEach (t : TextLib) (context : Context) : Nodes → Type 0 where
    each_nil : HoldsEach t context nil
    each_cons :
        {n : Node} {ns : Nodes}
        → Holds t context n
        → HoldsEach t context ns
        → HoldsEach t context (cons n ns)

  pub data HoldsSome (t : TextLib) (context : Context) : Nodes → Type 0 where
    some_here : {n : Node} {ns : Nodes} → Holds t context n → HoldsSome t context (cons n ns)
    some_later : {n : Node} {ns : Nodes} → HoldsSome t context ns → HoldsSome t context (cons n ns)

and_then-true : (a b : Result Bool) → and_then a b ≡ ok true → (a ≡ ok true) × (b ≡ ok true)
and_then-true (ok true) b h = (refl, h)
and_then-true (ok false) b h = ground arith
and_then-true (err e) b h = ground arith

and_then-false : (a b : Result Bool) → and_then a b ≡ ok false → (a ≡ ok false) ⊎ (b ≡ ok false)
and_then-false (ok true) b h = inr h
and_then-false (ok false) b h = inl refl
and_then-false (err e) b h = ground arith

or_else-true : (a b : Result Bool) → or_else a b ≡ ok true → (a ≡ ok true) ⊎ (b ≡ ok true)
or_else-true (ok true) b h = inl refl
or_else-true (ok false) b h = inr h
or_else-true (err e) b h = ground arith

or_else-false : (a b : Result Bool) → or_else a b ≡ ok false → (a ≡ ok false) × (b ≡ ok false)
or_else-false (ok true) b h = ground arith
or_else-false (ok false) b h = (refl, h)
or_else-false (err e) b h = ground arith

module _ (t : TextLib) (context : Context) where
  mutual
    unfolding evaluate

    sound : (n : Node) → evaluate t context n ≡ ok true → Holds t context n
    sound (comparison name o right) h = holds_comparison h
    sound (all_of ns) h = holds_all (sound_all ns h)
    sound (any_of ns) h = holds_any (sound_any ns h)

    sound_all : (ns : Nodes) → evaluate_all t context ns ≡ ok true → HoldsEach t context ns
    sound_all nil h = each_nil
    sound_all (cons n ns) h =
        let p = and_then-true (evaluate t context n) (evaluate_all t context ns) h in
        each_cons (sound n p.0) (sound_all ns p.1)

    sound_any : (ns : Nodes) → evaluate_any t context ns ≡ ok true → HoldsSome t context ns
    sound_any nil h = ground arith
    sound_any (cons n ns) h =
        elim (or_else-true (evaluate t context n) (evaluate_any t context ns) h) [
          | inl now ↦ some_here (sound n now)
          | inr later ↦ some_later (sound_any ns later)
        ]

    refute : (n : Node) → evaluate t context n ≡ ok false → ¬ Holds t context n
    refute (comparison name o right) h (holds_comparison k) = ground arith
    refute (all_of ns) h (holds_all k) = refute_all ns h k
    refute (any_of ns) h (holds_any k) = refute_any ns h k

    refute_all : (ns : Nodes) → evaluate_all t context ns ≡ ok false → ¬ HoldsEach t context ns
    refute_all nil h k = ground arith
    refute_all (cons n ns) h (each_cons k ks) =
        elim (and_then-false (evaluate t context n) (evaluate_all t context ns) h) [
          | inl now ↦ refute n now k
          | inr later ↦ refute_all ns later ks
        ]

    refute_any : (ns : Nodes) → evaluate_any t context ns ≡ ok false → ¬ HoldsSome t context ns
    refute_any nil h k = elim k [ ]
    refute_any (cons n ns) h (some_here k) =
        refute n (or_else-false (evaluate t context n) (evaluate_any t context ns) h).0 k
    refute_any (cons n ns) h (some_later k) =
        refute_any ns (or_else-false (evaluate t context n) (evaluate_any t context ns) h).1 k

-- A truth value said of a statement.
abbrev pub Says {ℓ} : Bool → Type ℓ → Type ℓ
Says true P = P
Says false P = ¬ P

-- Where evaluation returns a Boolean, that is the truth value of the predicate, `all` read as
-- "and" and `any` as "or" down to the comparisons, in spite of the early ends.
pub evaluate-Holds :
    (t : TextLib) (context : Context) (n : Node) (answer : Bool)
    → evaluate t context n ≡ ok answer
    → Says answer (Holds t context n)
evaluate-Holds t context n true h = sound t context n h
evaluate-Holds t context n false h = refute t context n h
