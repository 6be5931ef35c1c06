-- ===== src/Predicate/RoundTrip.antt =====
-- Writing a predicate as configuration, and reading it back.
use optimaler_status.Base.{◌≡◌, refl, String, true, is_some}
use optimaler_status.Python.Result.{ok}
use optimaler_status.Python.Value
use optimaler_status.Python.Value.{Value, Items, Fields, str, seq, mapping, end, field}
use optimaler_status.Predicate.Compare.{
  eq, ne, gt, ge, lt, le, is_in, contains, matches, AnyOp, op, text_op, TextLib,
}
use optimaler_status.Predicate.Ast.{Node, Nodes, comparison, all_of, any_of, nil, cons}
use optimaler_status.Predicate.Parse.{parse_predicate, parse_children}

-- The value of the operator's enum.
abbrev pub op_name : AnyOp → String
op_name (op eq) = "eq"
op_name (op ne) = "ne"
op_name (op gt) = "gt"
op_name (op ge) = "ge"
op_name (op lt) = "lt"
op_name (op le) = "le"
op_name (op is_in) = "in"
op_name (text_op contains) = "contains"
op_name (text_op matches) = "matches"

unfoldable mutual
  pub render : Node → Value
  render (comparison name o right) =
      mapping (field "field" (str name) (field "op" (str (op_name o)) (field "value" right end)))
  render (all_of ns) = mapping (field "all" (seq (render_each ns)) end)
  render (any_of ns) = mapping (field "any" (seq (render_each ns)) end)

  pub render_each : Nodes → Items
  render_each nil = Value.nil
  render_each (cons n ns) = Value.cons (render n) (render_each ns)

-- The literal of a `matches` comparison is a pattern that compiles.
abbrev pub HasPattern : TextLib → AnyOp → Value → Type 0
HasPattern t (text_op matches) (str pattern) = is_some (t.compile pattern) ≡ true
HasPattern t (text_op matches) right = ⊥
HasPattern t o right = Unit

mutual
  pub data IsLoadable (t : TextLib) : Node → Type 0 where
    load_comparison :
        (name : String) (o : AnyOp) (right : Value)
        → HasPattern t o right
        → IsLoadable t (comparison name o right)
    load_all : (ns : Nodes) → AreLoadable t ns → IsLoadable t (all_of ns)
    load_any : (ns : Nodes) → AreLoadable t ns → IsLoadable t (any_of ns)

  pub data AreLoadable (t : TextLib) : Nodes → Type 0 where
    load_nil : AreLoadable t nil
    load_cons :
        (n : Node) (ns : Nodes) → IsLoadable t n → AreLoadable t ns → AreLoadable t (cons n ns)

parse-render_comparison :
    (t : TextLib) (name : String) (o : AnyOp) (right : Value)
    → HasPattern t o right
    → parse_predicate t (render (comparison name o right)) ≡ ok (comparison name o right)
unfolding parse_predicate render
parse-render_comparison t name (op eq) right h = refl
parse-render_comparison t name (op ne) right h = refl
parse-render_comparison t name (op gt) right h = refl
parse-render_comparison t name (op ge) right h = refl
parse-render_comparison t name (op lt) right h = refl
parse-render_comparison t name (op le) right h = refl
parse-render_comparison t name (op is_in) right h = refl
parse-render_comparison t name (text_op contains) right h = refl
parse-render_comparison t name (text_op matches) (str pattern) h = rw h refl
parse-render_comparison t name (text_op matches) right h = absurd h

mutual
  unfolding parse_predicate render

  reads_back : (t : TextLib) (n : Node) → IsLoadable t n → parse_predicate t (render n) ≡ ok n
  reads_back t (comparison name o right) (load_comparison _ _ _ h) =
      parse-render_comparison t name o right h
  reads_back t (all_of ns) (load_all _ h) = rw (reads_back_each t ns h) refl
  reads_back t (any_of ns) (load_any _ h) = rw (reads_back_each t ns h) refl

  reads_back_each :
      (t : TextLib) (ns : Nodes) → AreLoadable t ns → parse_children t (render_each ns) ≡ ok ns
  reads_back_each t nil h = refl
  reads_back_each t (cons n ns) (load_cons _ _ h k) =
      rw (reads_back t n h, reads_back_each t ns k) refl

-- A predicate whose `matches` patterns compile, written as a YAML node, parses to itself.
pub parse-render : (t : TextLib) (n : Node) → IsLoadable t n → parse_predicate t (render n) ≡ ok n
parse-render t n h = reads_back t n h
