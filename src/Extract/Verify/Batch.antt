-- ===== src/Extract/Verify/Batch.antt =====
-- At most one record for a field, over a batch of proposals.
use optimaler_status.Base.{
  ◌≡◌, refl, ap, ◌∙◌, true, false, Option, none, some, String, List, [], ◌∷◌, length, if◌then◌else◌,
  Bool-cases, inl, inr, All, is_some, is_member, is_member-absent, IsUnique, suc,
}
use optimaler_status.Contracts.Envelope.{TextLayer}
use optimaler_status.Extract.Records.{
  Proposal, ExtractionRecord, ExtractionConfig, accepted, is_valid_record, with_record, records_of,
  fields_of,
}
use optimaler_status.Extract.Verify.{
  Matching, is_known, verify_proposal, verify_all, verify_proposals,
}
use optimaler_status.Extract.Verify.Locks.{window, verify_proposal_iff}
use optimaler_status.Extract.Verify.Verbatim.{record_of-span}
use optimaler_status.Extract.Verify.Ranges.{
  IsScoring, IsConfident, match_score-in_range, record_of-valid,
}

-- The fields are known, none of them is taken, and none stands twice.
pub record IsFresh (known : Option (List String)) (taken : List String) (fields : List String)
    : Type 0 where
  pub are_known : All (λ f. is_known known f ≡ true) fields
  pub are_free : All (λ f. is_member f taken ≡ false) fields
  pub are_unique : IsUnique fields

-- A record carries the field of its proposal, which is known.
verify_proposal-field :
    (m : Matching) (config : ExtractionConfig) (known : Option (List String))
    (layer : Option TextLayer) (p : Proposal) (r : ExtractionRecord)
    → (verify_proposal m config known layer p).record_ ≡ some r
    → (r.field ≡ p.field) × (is_known known r.field ≡ true)
verify_proposal-field m config known layer p r h =
    let l = (verify_proposal_iff m config known layer p r).0 h in
    let (span, value, field) = record_of-span m config p l.part l.offset _ _ in
    let same = ap (λ x. x.field) l.recorded ∙ field in
    (same, ap (is_known known) same ∙ l.field_known)

module _ (m : Matching) (config : ExtractionConfig) (known : Option (List String))
    (layer : Option TextLayer) where
  IsFresh-record :
      (taken : List String) (p : Proposal) (o : Option ExtractionRecord)
      (rest : List ExtractionRecord)
      → is_member p.field taken ≡ false
      → (verify_proposal m config known layer p).record_ ≡ o
      → IsFresh known (if is_some o then p.field ∷ taken else taken) (fields_of rest)
      → IsFresh known taken (fields_of (with_record o rest))
  IsFresh-record taken p none rest free e h = h
  IsFresh-record taken p (some r) rest free e h =
      let (same, in_known) = verify_proposal-field m config known layer p r e in
      let (absent, others) = is_member-absent p.field taken (fields_of rest) h.are_free in
      record {
        are_known = (in_known, h.are_known);
        are_free = (ap (λ f. is_member f taken) same ∙ free, others);
        are_unique = (ap (λ f. is_member f (fields_of rest)) same ∙ absent, h.are_unique);
      }

  verify_all-IsFresh :
      (taken : List String) (proposals : List Proposal)
      → IsFresh known taken
          (fields_of (records_of (verify_all m config known layer taken proposals)))
  unfolding verify_all records_of
  verify_all-IsFresh taken [] = record { are_known = tt; are_free = tt; are_unique = tt }
  verify_all-IsFresh taken (p ∷ proposals) = elim (Bool-cases (is_member p.field taken)) [
    | inl b ↦ rw b (verify_all-IsFresh taken proposals)
    | inr b ↦ rw b (
        IsFresh-record taken p (verify_proposal m config known layer p).record_ _ b refl (
          verify_all-IsFresh
            (if accepted (verify_proposal m config known layer p) then p.field ∷ taken else taken)
            proposals))
  ]

  verify_all-length :
      (proposals : List Proposal) (taken : List String)
      → length (verify_all m config known layer taken proposals) ≡ length proposals
  unfolding verify_all
  verify_all-length [] taken = refl
  verify_all-length (p ∷ proposals) taken = elim (Bool-cases (is_member p.field taken)) [
    | inl b ↦ rw b (ap (λ n. suc n) (verify_all-length proposals taken))
    | inr b ↦ rw b (
        ap (λ n. suc n)
          (verify_all-length proposals
            (if accepted (verify_proposal m config known layer p) then p.field ∷ taken else taken)))
  ]

  verify_proposal-valid :
      IsScoring m
      → IsConfident config
      → (p : Proposal) (o : Option ExtractionRecord) (rest : List ExtractionRecord)
      → (verify_proposal m config known layer p).record_ ≡ o
      → All (λ r. is_valid_record r ≡ true) rest
      → All (λ r. is_valid_record r ≡ true) (with_record o rest)
  verify_proposal-valid scoring confident p none rest e h = h
  verify_proposal-valid scoring confident p (some r) rest e h =
      let l = (verify_proposal_iff m config known layer p r).0 e in
      let score = match_score-in_range m (window l.part p l.offset) p.quote scoring in
      (
        ap is_valid_record l.recorded
            ∙ record_of-valid m config p l.part l.offset _ _ scoring confident score,
        h,
      )

  verify_all-valid :
      IsScoring m
      → IsConfident config
      → (proposals : List Proposal) (taken : List String)
      → All
          (λ r. is_valid_record r ≡ true)
          (records_of (verify_all m config known layer taken proposals))
  unfolding verify_all records_of
  verify_all-valid scoring confident [] taken = tt
  verify_all-valid scoring confident (p ∷ proposals) taken =
      elim (Bool-cases (is_member p.field taken)) [
        | inl b ↦ rw b (verify_all-valid scoring confident proposals taken)
        | inr b ↦ rw b (
            verify_proposal-valid scoring confident p
              (verify_proposal m config known layer p).record_ _ refl
              (verify_all-valid scoring confident proposals (
                if accepted (verify_proposal m config known layer p)
                then p.field ∷ taken
                else taken)))
      ]

-- Where scores and configured confidences are from 0 to 1, the records of a batch can be constructed.
pub verify_proposals-valid :
    (m : Matching) (config : ExtractionConfig) (known : Option (List String)) (taken : List String)
    (layer : Option TextLayer) (proposals : List Proposal)
    → IsScoring m
    → IsConfident config
    → All
        (λ r. is_valid_record r ≡ true)
        (records_of (verify_proposals m config known taken layer proposals))
unfolding verify_proposals
verify_proposals-valid m config known taken layer proposals scoring confident =
    verify_all-valid m config known layer scoring confident proposals taken

-- A batch of proposals gives an outcome for each, and the fields of its records are known, are not
-- among the taken ones, and stand there once.
pub verify_proposals-IsFresh :
    (m : Matching) (config : ExtractionConfig) (known : Option (List String)) (taken : List String)
    (layer : Option TextLayer) (proposals : List Proposal)
    → (length (verify_proposals m config known taken layer proposals) ≡ length proposals)
      × IsFresh known taken
          (fields_of (records_of (verify_proposals m config known taken layer proposals)))
unfolding verify_proposals
verify_proposals-IsFresh m config known taken layer proposals = (
  verify_all-length m config known layer proposals taken,
  verify_all-IsFresh m config known layer taken proposals,
)
