-- ===== src/Evidence/Derive.antt =====
-- engine/evidence/derive.py: the procedure of an item, from its hint and its content.
pub mod Named
use optimaler_status.Base.{
  ◌≡◌, Bool, true, false, ◌||◌, not, Option, none, some, String, List, [], ◌∷◌, if◌then◌else◌,
  str_eq,
}
use optimaler_status.Base.Dict.{Dict, contains}
use optimaler_status.Base.Sorting.{sorted}
use optimaler_status.Base.TextOrder.{str_le}
use optimaler_status.Python.Result.{Result, ok, ◌>>=◌}
use optimaler_status.Predicate.Compare.{TextLib}
use optimaler_status.Predicate.Ast.{Context, Node, evaluate}
use optimaler_status.Contracts.Evidence.{
  DerivationSource, HintStatus, DerivationDetail, several_procedures, hint_contradicts,
  taken_from_hint, derived_from_content, no_procedure, DerivationOutcome,
}

-- A procedure's file, as far as the derivation reads it.
pub record ProcedureConfig : Type 0 where
  pub derivation_predicate : Option Node

pub record ProcedureDerivation : Type 0 where
  pub procedure_id : Option String
  pub source : DerivationSource
  pub hint : Option String
  pub hint_status : HintStatus
  pub candidates : List String
  pub ambiguous : Bool
  pub hint_contradicted : Bool
  pub detail : DerivationDetail

-- k in ids
unfoldable pub member : String → List String → Bool
member k [] = false
member k (id ∷ ids) = str_eq id k || member k ids

unfoldable pub matches : TextLib → Context → ProcedureConfig → Result Bool
matches t context procedure = elim procedure.derivation_predicate [
  | none ↦ ok false
  | some predicate ↦ evaluate t context predicate
]

-- The ids of the procedures that match, in the order of the mapping.
unfoldable pub matching_ids : TextLib → Context → Dict ProcedureConfig → Result (List String)
unfolding matches
matching_ids t context [] = ok []
matching_ids t context ((id, procedure) ∷ procedures) = do
  holds ← matches t context procedure
  rest ← matching_ids t context procedures
  ok (if holds then id ∷ rest else rest)

unfoldable pub content_candidates : TextLib → Dict ProcedureConfig → Context → Result (List String)
unfolding matching_ids
content_candidates t procedures context = do
  ids ← matching_ids t context procedures
  ok (sorted str_le ids)

unfoldable pub hint_status_of : Option String → Dict ProcedureConfig → HintStatus
unfolding contains
hint_status_of none procedures = HintStatus.absent
hint_status_of (some hint) procedures =
    if contains procedures hint then HintStatus.known else HintStatus.unknown

-- candidates and hint not in candidates
unfoldable pub contradicts : String → List String → Bool
unfolding member
contradicts hint [] = false
contradicts hint (c ∷ cs) = not (member hint (c ∷ cs))

-- The branches of derive_procedure after the first: at most one candidate.
unfoldable pub settle : Option String → HintStatus → List String → ProcedureDerivation
unfolding contradicts
settle (some hint) HintStatus.known candidates =
    let contradicted = contradicts hint candidates in
    record {
      procedure_id = if contradicted then none else some hint;
      source = if contradicted then DerivationSource.none_found else DerivationSource.hint;
      hint = some hint;
      hint_status = HintStatus.known;
      candidates = candidates;
      ambiguous = false;
      hint_contradicted = contradicted;
      detail = if contradicted then hint_contradicts hint candidates else taken_from_hint hint;
    }
settle hint status (derived ∷ []) = record {
  procedure_id = some derived;
  source = DerivationSource.content;
  hint = hint;
  hint_status = status;
  candidates = derived ∷ [];
  ambiguous = false;
  hint_contradicted = false;
  detail = derived_from_content derived status hint;
}
settle hint status candidates = record {
  procedure_id = none;
  source = DerivationSource.none_found;
  hint = hint;
  hint_status = status;
  candidates = candidates;
  ambiguous = false;
  hint_contradicted = false;
  detail = no_procedure status hint;
}

unfoldable pub derivation_of : Option String → HintStatus → List String → ProcedureDerivation
unfolding settle
derivation_of hint status (a ∷ b ∷ rest) = record {
  procedure_id = none;
  source = DerivationSource.none_found;
  hint = hint;
  hint_status = status;
  candidates = a ∷ b ∷ rest;
  ambiguous = true;
  hint_contradicted = false;
  detail = several_procedures (a ∷ b ∷ rest);
}
derivation_of hint status candidates = settle hint status candidates

-- derive_procedure, on the context that build_payload_context gives for the envelope.
unfoldable pub derive_procedure :
    TextLib → Context → Option String → Dict ProcedureConfig → Result ProcedureDerivation
unfolding content_candidates hint_status_of derivation_of
derive_procedure t context hint procedures = do
  candidates ← content_candidates t procedures context
  ok (derivation_of hint (hint_status_of hint procedures) candidates)

unfoldable pub as_outcome : ProcedureDerivation → DerivationOutcome
as_outcome d = record { source = d.source; candidates = d.candidates; detail = some d.detail }
