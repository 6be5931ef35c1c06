-- ===== src/Predicate/Tests.antt =====
-- Runs of the predicate functions, and their theorems at concrete predicates.
use Prim.Native.Nat.{◌^◌}
use optimaler_status.Base.{◌≡◌, refl, true, false, some, [], ◌∷◌, arith, str_eq}
use optimaler_status.Base.Int.{pos}
use optimaler_status.Python.Result.{ok, err, overflow_error, predicate_error}
use optimaler_status.Python.Float.{overflow_limit}
use optimaler_status.Python.Value.{Value, null, bool, int, float, str, seq, mapping, field, end}
use optimaler_status.Python.Value
use optimaler_status.Predicate.Compare.{eq, gt, is_in, matches, op, text_op, TextLib, compare}
use optimaler_status.Predicate.Ast.{
  Context, Node, comparison, all_of, nil, cons, evaluate, field_value,
}
use optimaler_status.Predicate.Parse.{parse_predicate}
use optimaler_status.Predicate.Totality.{
  Returns, compare-Returns, compare_op_overflow, evaluate-Returns, fits_comparison, fits_all,
  fits_cons, fits_nil,
}
use optimaler_status.Predicate.Semantics.{Holds, evaluate-Holds}
use optimaler_status.Predicate.RoundTrip.{
  render, parse-render, load_comparison, load_all, load_cons, load_nil,
}

-- Texts in lower case, and patterns that are plain texts.
abbrev plain : TextLib
plain = record { casefold = λ s. s; compile = λ p. some (λ s. str_eq p s) }

abbrev rente : Node
rente = all_of (
    cons (comparison "payload.art" (op eq) (str "altersrente"))
      (cons (comparison "text.normalized" (text_op matches) (str "rente")) nil))

abbrev context : Context
context = ("payload.art", str "altersrente") ∷ ("text.normalized", str "rente") ∷ []

abbrev wider : Context
wider = ("channel", str "email") ∷ context

rente_holds : evaluate plain context rente ≡ ok true
unfolding evaluate
rente_holds = refl

unknown_fails : evaluate plain [] rente ≡ ok false
unfolding evaluate
unknown_fails = refl

two_keys :
    parse_predicate plain (mapping (field "all" (seq Value.nil) (field "any" null end)))
    ≡ err predicate_error
unfolding parse_predicate
two_keys = refl

vacuous : parse_predicate plain (mapping (field "all" (seq Value.nil) end)) ≡ ok (all_of nil)
unfolding parse_predicate
vacuous = refl

compare-Returns_example :
    Returns (compare plain (op is_in) (int (pos 3)) (seq (Value.cons (int (pos 3)) Value.nil)))
unfolding overflow_limit
compare-Returns_example =
    compare-Returns plain (op is_in) (int (pos 3)) (seq (Value.cons (int (pos 3)) Value.nil))
      (omega arith) (omega arith)

compare_op_overflow_example : compare plain (op gt) (int (pos (2 ^ 1024))) null ≡ err overflow_error
unfolding overflow_limit
compare_op_overflow_example =
    compare_op_overflow plain gt (pos (2 ^ 1024)) null (omega arith) (λ e. cc) refl

evaluate-Returns_example : Returns (evaluate plain context rente)
unfolding field_value
evaluate-Returns_example = evaluate-Returns plain context rente (
    fits_all _ (
      fits_cons _ _ (fits_comparison _ _ _ tt tt)
        (fits_cons _ _ (fits_comparison _ _ _ tt tt) fits_nil)))

evaluate-Holds_example : Holds plain context rente
evaluate-Holds_example = evaluate-Holds plain context rente true rente_holds

parse-render_example : parse_predicate plain (render rente) ≡ ok rente
parse-render_example = parse-render plain rente (
    load_all _ (
      load_cons _ _ (load_comparison _ _ _ tt)
        (load_cons _ _ (load_comparison _ _ _ refl) load_nil)))
