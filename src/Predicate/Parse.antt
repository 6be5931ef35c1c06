-- ===== src/Predicate/Parse.antt =====
-- `parse_predicate` and `parse_op`: a YAML node becomes an AST node, or a PredicateError.
use optimaler_status.Base.{
  Bool, true, ◌&&◌, ◌||◌, Option, none, some, String, str_eq, if◌then◌else◌, is_some,
}
use optimaler_status.Python.Result.{Result, ok, err, predicate_error, ◌>>=◌, ◌>>◌, require}
use optimaler_status.Python.Value.{
  Value, Items, Fields, str, seq, mapping, end, field, field_of, has_field,
}
use optimaler_status.Python.Value
use optimaler_status.Predicate.Compare.{Op, TextOp, AnyOp, TextLib, op, text_op}
use optimaler_status.Predicate.Ast.{Node, Nodes, comparison, all_of, any_of, nil, cons}

unfoldable pub parse_op : String → Result AnyOp
parse_op name =
    if str_eq name "eq"
    then ok (op Op.eq)
    else if str_eq name "ne"
    then ok (op Op.ne)
    else if str_eq name "gt"
    then ok (op Op.gt)
    else if str_eq name "ge"
    then ok (op Op.ge)
    else if str_eq name "lt"
    then ok (op Op.lt)
    else if str_eq name "le"
    then ok (op Op.le)
    else if str_eq name "in"
    then ok (op Op.is_in)
    else if str_eq name "contains"
    then ok (text_op TextOp.contains)
    else if str_eq name "matches"
    then ok (text_op TextOp.matches)
    else err predicate_error

-- A broken regular expression is refused when the predicate is loaded.
compiles : TextLib → AnyOp → Value → Result (Unit {0})
compiles t (text_op TextOp.matches) (str pattern) =
    require (is_some (t.compile pattern)) predicate_error
compiles t (text_op TextOp.matches) _ = err predicate_error
compiles t _ right = ok tt

abbrev pub as_str : Value → Result String
as_str (str s) = ok s
as_str _ = err predicate_error

abbrev pub required : Option Value → Result Value
required none = err predicate_error
required (some v) = ok v

-- keys - {"field", "op", "value"} is empty
known_keys : Fields → Bool
known_keys end = true
known_keys (field k v fs) = (str_eq k "field" || str_eq k "op" || str_eq k "value") && known_keys fs

unfoldable pub parse_comparison : TextLib → Fields → Result Node
unfolding parse_op compiles known_keys field_of
parse_comparison t fs = do
  field_raw ← required (field_of fs "field")
  op_raw ← required (field_of fs "op")
  right ← required (field_of fs "value")
  require (known_keys fs) predicate_error
  name ← as_str field_raw
  op_name ← as_str op_raw
  o ← parse_op op_name
  compiles t o right
  ok (comparison name o right)

-- A mapping that is no single 'all' or 'any' with a list: it is a comparison, or malformed.
unfoldable pub parse_other : TextLib → Fields → Result Node
unfolding parse_comparison has_field
parse_other t fs =
    if has_field fs "all" || has_field fs "any" then err predicate_error else parse_comparison t fs

abbrev pub connective : String → Nodes → Node
connective key nodes = if str_eq key "all" then all_of nodes else any_of nodes

unfoldable mutual
  unfolding parse_other

  pub parse_predicate : TextLib → Value → Result Node
  parse_predicate t (mapping fs) = parse_mapping t fs
  parse_predicate t _ = err predicate_error

  pub parse_mapping : TextLib → Fields → Result Node
  parse_mapping t (field key (seq children) end) =
      if str_eq key "all" || str_eq key "any"
      then (do nodes ← parse_children t children; ok (connective key nodes))
      else parse_other t (field key (seq children) end)
  parse_mapping t fs = parse_other t fs

  pub parse_children : TextLib → Items → Result Nodes
  parse_children t Value.nil = ok nil
  parse_children t (Value.cons child rest) = do
    node ← parse_predicate t child
    nodes ← parse_children t rest
    ok (cons node nodes)
