-- ===== src/Predicate/Ast.antt =====
-- The nodes of a predicate, and their evaluation against a context.
use optimaler_status.Base.{Bool, true, false, none, some, String}
use optimaler_status.Base.Dict
use optimaler_status.Base.Dict.{Dict}
use optimaler_status.Python.Result.{Result, ok, err}
use optimaler_status.Python.Value.{Value, null}
use optimaler_status.Predicate.Compare.{AnyOp, TextLib, compare}

abbrev pub Context : Type 0
Context = Dict Value

mutual
  pub data Node : Type 0 where
    comparison : String → AnyOp → Value → Node
    all_of : Nodes → Node
    any_of : Nodes → Node

  pub data Nodes : Type 0 where
    nil : Nodes
    cons : Node → Nodes → Nodes

-- context.get(field), where a missing key and None are one
unfoldable pub field_value : Context → String → Value
unfolding Dict.get
field_value context name = elim (Dict.get context name) [ none ↦ null | some v ↦ v ]

-- The test `left is None` of a comparison.
abbrev pub compare_present : TextLib → AnyOp → Value → Value → Result Bool
compare_present t o null right = ok false
compare_present t o left right = compare t o left right

-- `all` and `any` stop at the first child that settles the answer.
abbrev pub and_then : Result Bool → Result Bool → Result Bool
and_then (ok true) later = later
and_then (ok false) later = ok false
and_then (err e) later = err e

abbrev pub or_else : Result Bool → Result Bool → Result Bool
or_else (ok true) later = ok true
or_else (ok false) later = later
or_else (err e) later = err e

unfoldable mutual
  unfolding field_value compare

  pub evaluate : TextLib → Context → Node → Result Bool
  evaluate t context (comparison name o right) =
      compare_present t o (field_value context name) right
  evaluate t context (all_of nodes) = evaluate_all t context nodes
  evaluate t context (any_of nodes) = evaluate_any t context nodes

  pub evaluate_all : TextLib → Context → Nodes → Result Bool
  evaluate_all t context nil = ok true
  evaluate_all t context (cons n ns) = and_then (evaluate t context n) (evaluate_all t context ns)

  pub evaluate_any : TextLib → Context → Nodes → Result Bool
  evaluate_any t context nil = ok false
  evaluate_any t context (cons n ns) = or_else (evaluate t context n) (evaluate_any t context ns)
