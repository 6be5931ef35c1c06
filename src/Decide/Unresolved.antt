-- ===== src/Decide/Unresolved.antt =====
-- Missing evidence costs an item its qualification.
use optimaler_status.Base.{◌≡◌, ◌≢◌, true, inl, inr, String, List, [], ◌∷◌, arith, sym, ◌∙◌}
use optimaler_status.Base.Dict.{Dict}
use optimaler_status.Python.Result.{ok}
use optimaler_status.Python.Value.{Value, null}
use optimaler_status.Predicate.Ast.{field_value}
use optimaler_status.Contracts.Common.{full_human_review, tier_cases}
use optimaler_status.Contracts.Config.{QualifyingCondition, DecisionRow}
use optimaler_status.Decide.Rows.{condition_holds}
use optimaler_status.Decide.Sample.{Digest}
use optimaler_status.Decide.Record.{Inputs, decide}
use optimaler_status.Decide.Clearance.{fields_of, Listed, first, later, decide-IsCleared}
use optimaler_status.Decide.FirstMatch.{AllHold}

-- A condition of the list reads this field.
pub data Reads (name : String) : List QualifyingCondition → Type 0 where
  reads_here :
      {c : QualifyingCondition} {cs : List QualifyingCondition}
      → c.field ≡ name
      → Reads name (c ∷ cs)
  reads_later :
      {c : QualifyingCondition} {cs : List QualifyingCondition}
      → Reads name cs
      → Reads name (c ∷ cs)

-- Every row that grants less than tier 3 reads this field.
pub data Guarded (name : String) : List DecisionRow → Type 0 where
  guarded_nil : Guarded name []
  guarded_full :
      (row : DecisionRow) {rows : List DecisionRow}
      → row.tier ≡ full_human_review
      → Guarded name rows
      → Guarded name (row ∷ rows)
  guarded_row :
      (row : DecisionRow) {rows : List DecisionRow}
      → Reads name row.when_all
      → Guarded name rows
      → Guarded name (row ∷ rows)

unresolved_fails :
    (fields : Dict Value) (name : String) (c : QualifyingCondition)
    → field_value fields name ≡ null
    → c.field ≡ name
    → condition_holds c fields ≢ ok true
unfolding condition_holds
unresolved_fails fields name c h k e = ground (arith, rw (k, h) at e)

Reads-AllHold :
    (fields : Dict Value) (name : String) {cs : List QualifyingCondition}
    → field_value fields name ≡ null
    → Reads name cs
    → ¬ AllHold fields cs
Reads-AllHold fields name h (reads_here {c = c} k) all = unresolved_fails fields name c h k all.0
Reads-AllHold fields name h (reads_later k) all = Reads-AllHold fields name h k all.1

Listed-Guarded :
    (fields : Dict Value) (name : String) {rows : List DecisionRow} (row : DecisionRow)
    → field_value fields name ≡ null
    → Guarded name rows
    → Listed row rows
    → AllHold fields row.when_all
    → row.tier ≡ full_human_review
Listed-Guarded fields name row h guarded_nil l all = elim l [ ]
Listed-Guarded fields name row h (guarded_full _ t g) first all = t
Listed-Guarded fields name row h (guarded_row _ r g) first all =
    absurd (Reads-AllHold fields name h r all)
Listed-Guarded fields name row h (guarded_full _ t g) (later l) all =
    Listed-Guarded fields name row h g l all
Listed-Guarded fields name row h (guarded_row _ r g) (later l) all =
    Listed-Guarded fields name row h g l all

-- Where every row below tier 3 has a condition on a field, an item for which the field does not
-- resolve goes to tier 3.
pub decide_unresolved :
    (digest : Digest) (i : Inputs) (name : String)
    → Guarded name i.table.rows
    → field_value (fields_of i) name ≡ null
    → (decide digest i).tier ≡ full_human_review
decide_unresolved digest i name g h = elim (tier_cases (decide digest i).tier) [
  | inl full ↦ full
  | inr below ↦
      let q = (decide-IsCleared digest i below).qualified in
      sym q.grants ∙ Listed-Guarded (fields_of i) name q.row h g q.listed q.holds
]
