-- ===== src/Predicate/Locality.antt =====
-- A predicate reads the fields that it names, and no other.
use optimaler_status.Base.{◌≡◌, refl, String}
use optimaler_status.Python.Value.{Value}
use optimaler_status.Predicate.Compare.{TextLib, AnyOp}
use optimaler_status.Predicate.Ast.{
  Context, Node, Nodes, comparison, all_of, any_of, nil, cons, field_value, compare_present,
  and_then, or_else, evaluate, evaluate_all, evaluate_any,
}

-- Two contexts with the same value, or none, at every field of a predicate.
mutual
  pub data Agree (c d : Context) : Node → Type 0 where
    agree_comparison :
        (name : String) (o : AnyOp) (right : Value)
        → field_value c name ≡ field_value d name
        → Agree c d (comparison name o right)
    agree_all : (ns : Nodes) → AgreeEach c d ns → Agree c d (all_of ns)
    agree_any : (ns : Nodes) → AgreeEach c d ns → Agree c d (any_of ns)

  pub data AgreeEach (c d : Context) : Nodes → Type 0 where
    agree_nil : AgreeEach c d nil
    agree_cons :
        (n : Node) (ns : Nodes) → Agree c d n → AgreeEach c d ns → AgreeEach c d (cons n ns)

module _ (t : TextLib) (c d : Context) where
  mutual
    unfolding evaluate

    congr : (n : Node) → Agree c d n → evaluate t c n ≡ evaluate t d n
    congr (comparison name o right) (agree_comparison _ _ _ h) =
        λ i. compare_present t o (h i) right
    congr (all_of ns) (agree_all _ h) = congr_all ns h
    congr (any_of ns) (agree_any _ h) = congr_any ns h

    congr_all : (ns : Nodes) → AgreeEach c d ns → evaluate_all t c ns ≡ evaluate_all t d ns
    congr_all nil h = refl
    congr_all (cons n ns) (agree_cons _ _ h k) = λ i. and_then (congr n h i) (congr_all ns k i)

    congr_any : (ns : Nodes) → AgreeEach c d ns → evaluate_any t c ns ≡ evaluate_any t d ns
    congr_any nil h = refl
    congr_any (cons n ns) (agree_cons _ _ h k) = λ i. or_else (congr n h i) (congr_any ns k i)

-- Evaluation gives the same result, errors included, in two contexts that agree on the fields
-- that the predicate names.
pub evaluate-Agree :
    (t : TextLib) (c d : Context) (n : Node) → Agree c d n → evaluate t c n ≡ evaluate t d n
evaluate-Agree t c d n h = congr t c d n h
