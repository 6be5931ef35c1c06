-- ===== src/Decide/FirstMatch.antt =====
-- First match wins, in doubt tier 3: the rows against their declarative reading.
use optimaler_status.Base.{◌≡◌, Bool, true, false, String, List, [], ◌∷◌, map, All, if◌then◌else◌}
use optimaler_status.Base.Dict.{Dict}
use optimaler_status.Python.Result.{ok, bind-ok, ok_injective}
use optimaler_status.Python.Value.{Value}
use optimaler_status.Contracts.Common.{Tier, full_human_review}
use optimaler_status.Contracts.Config.{QualifyingCondition, DecisionRow, DecisionTable}
use optimaler_status.Contracts.Decision.{ReasonKind, DecisionReason}
use optimaler_status.Decide.Rows.{
  Verdict, condition_holds, failed_conditions, row_answer, evaluate_rows, default_row_id,
}

-- A reason, as a consumer switches on it.
abbrev pub Mark : Type 0
Mark = ReasonKind × String

abbrev pub mark : DecisionReason → Mark
mark r = (r.kind, r.rule_id)

module _ (fields : Dict Value) where
  abbrev pub AllHold : List QualifyingCondition → Type 0
  AllHold cs = All (λ c. condition_holds c fields ≡ ok true) cs

  -- Some condition of the row fails.
  pub data SomeFails : List QualifyingCondition → Type 0 where
    fails_here :
        {c : QualifyingCondition} {cs : List QualifyingCondition}
        → condition_holds c fields ≡ ok false
        → SomeFails (c ∷ cs)
    fails_later :
        {c : QualifyingCondition} {cs : List QualifyingCondition}
        → SomeFails cs
        → SomeFails (c ∷ cs)

  -- The tier of the first row whose conditions all hold, and the reasons on the way to it.
  pub data FirstMatch : List DecisionRow → Tier → List Mark → Type 0 where
    no_match : FirstMatch [] full_human_review ((ReasonKind.defaulted, default_row_id) ∷ [])
    matched :
        (row : DecisionRow) (rows : List DecisionRow)
        → AllHold row.when_all
        → FirstMatch (row ∷ rows) row.tier ((ReasonKind.qualified, row.row_id) ∷ [])
    skipped :
        (row : DecisionRow) (rows : List DecisionRow) {tier : Tier} {marks : List Mark}
        → SomeFails row.when_all
        → FirstMatch rows tier marks
        → FirstMatch (row ∷ rows) tier ((ReasonKind.failed, row.row_id) ∷ marks)

  -- The conditions that `failed_conditions` returns are those that fail.
  abbrev Split : List QualifyingCondition → List QualifyingCondition → Type 0
  Split cs [] = AllHold cs
  Split cs (m ∷ missed) = SomeFails cs

  abbrev cons_unless :
      Bool → QualifyingCondition → List QualifyingCondition → List QualifyingCondition
  cons_unless holds c rest = if holds then rest else c ∷ rest

  Split-cons :
      (c : QualifyingCondition) (cs : List QualifyingCondition) (holds : Bool)
      (rest : List QualifyingCondition)
      → condition_holds c fields ≡ ok holds
      → Split cs rest
      → Split (c ∷ cs) (cons_unless holds c rest)
  Split-cons c cs true [] h k = (h, k)
  Split-cons c cs true (m ∷ rest) h k = fails_later k
  Split-cons c cs false rest h k = fails_here h

  failed_conditions-Split :
      (cs missed : List QualifyingCondition)
      → failed_conditions cs fields ≡ ok missed
      → Split cs missed
  unfolding failed_conditions
  failed_conditions-Split [] missed h = rw (← (ok_injective h)) tt
  failed_conditions-Split (c ∷ cs) missed h =
      let (holds, p, q) = bind-ok (condition_holds c fields) _ h in
      let (rest, r, s) = bind-ok (failed_conditions cs fields) _ q in
      rw (← (ok_injective s)) (Split-cons c cs holds rest p (failed_conditions-Split cs rest r))

  rows_match :
      (table : DecisionTable) (rows : List DecisionRow) (v : Verdict)
      → evaluate_rows table rows fields ≡ ok v
      → FirstMatch rows v.0 (map mark v.1)
  unfolding evaluate_rows
  rows_match table [] v h = rw (← (ok_injective h)) no_match
  rows_match table (row ∷ rows) v h =
      let (missed, p, q) = bind-ok (failed_conditions row.when_all fields) _ h in
      go missed (failed_conditions-Split row.when_all missed p) q (rows_match table rows)
    where
      go :
          (missed : List QualifyingCondition)
          → Split row.when_all missed
          → row_answer row fields missed (evaluate_rows table rows fields) ≡ ok v
          → ((w : Verdict)
              → evaluate_rows table rows fields ≡ ok w
              → FirstMatch rows w.0 (map mark w.1))
          → FirstMatch (row ∷ rows) v.0 (map mark v.1)
      go [] k q ih = rw (← (ok_injective q)) (matched row rows k)
      go (m ∷ ms) k q ih =
          let (w, r, s) = bind-ok (evaluate_rows table rows fields) _ q in
          rw (← (ok_injective s)) (skipped row rows k (ih w r))

-- Where the evaluation of the rows returns, its tier is that of the first row all of whose
-- conditions hold, or 3 if there is none, and its reasons name, in order, each row above with
-- FAILED and then the matched row with QUALIFIED, or the default.
pub evaluate_rows-FirstMatch :
    (table : DecisionTable) (fields : Dict Value) (v : Verdict)
    → evaluate_rows table table.rows fields ≡ ok v
    → FirstMatch fields table.rows v.0 (map mark v.1)
evaluate_rows-FirstMatch table fields v h = rows_match fields table table.rows v h
