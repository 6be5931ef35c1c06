-- ===== src/Extract/Verify/Locks.antt =====
-- A proposal becomes a record if and only if both locks open.
use optimaler_status.Base.{
  ℕ, ◌+◌, ◌≤◌, ◌≡◌, refl, sym, ap, ◌∙◌, Bool, true, false, ◌||◌, not, Option, some, String, List,
  length, ltb, if◌then◌else◌, Option-cases, inl, inr, ◌↔◌, arith, some_injective,
}
use optimaler_status.Base.Int.{ℤ, pos, negsuc}
use optimaler_status.Python.Float.{Float, lt}
use optimaler_status.Python.Text.{Text, take, drop, is_empty, strip}
use optimaler_status.Contracts.Envelope.{TextLayerPart, TextLayer}
use optimaler_status.TextLayer.Layer.{layer_part}
use optimaler_status.Extract.Records.{
  Proposal, ExtractionRecord, MatchPolicy, ExtractionConfig, FailureKind, Verification,
}
use optimaler_status.Extract.Verify.{
  Matching, match_score, value_in_quote, record_of, failed, verify_window, verify_at, verify_in,
  is_known, verify_proposal,
}

-- The text of the part at the offset, as long as the quote.
abbrev pub window : TextLayerPart → Proposal → ℕ → Text
window part p offset = take (length p.quote) (drop offset part.normalized_text)

-- The text at the offset resembles the quote enough, and the quote carries the value.
pub record Opened (m : Matching) (policy : MatchPolicy) (p : Proposal) (text : Text) : Type 0 where
  pub says : lt (match_score m text p.quote) policy.min_score ≡ false
  pub carries : value_in_quote m p.value p.quote policy ≡ true

-- The proposal is about a known field and a part of the layer, is not blank, its quote fits into the
-- part at the offset, and both locks open; the record is the one of the proposal.
pub record Locked (m : Matching) (config : ExtractionConfig) (known : Option (List String))
    (layer : Option TextLayer) (p : Proposal) (r : ExtractionRecord) : Type 0 where
  pub part : TextLayerPart
  pub offset : ℕ
  pub has_value : is_empty (strip p.value) ≡ false
  pub has_quote : is_empty (strip p.quote) ≡ false
  pub field_known : is_known known p.field ≡ true
  pub found : layer_part layer p.part_id ≡ some part
  pub stands_at : p.offset ≡ pos offset
  pub fits : offset + length p.quote ≤ length part.normalized_text
  pub opened : Opened m (config.policy_for part.source_type) p (window part p offset)
  pub recorded :
      r
      ≡ record_of m config p part offset
          (match_score m (window part p offset) p.quote)
          (config.policy_for part.source_type).mode

-- A guard that a proposal with a record has passed.
past_guard :
    (guard : Bool) (p : Proposal) (kind : FailureKind) (score : Float) (rest : Verification)
    (r : ExtractionRecord)
    → (if guard then failed p kind score else rest).record_ ≡ some r
    → (guard ≡ false) × (rest.record_ ≡ some r)
past_guard true p kind score rest r h = absurd (cc h)
past_guard false p kind score rest r h = (refl, h)

both_false : (a b : Bool) → (a || b) ≡ false → (a ≡ false) × (b ≡ false)
both_false false b h = (refl, h)
both_false true b h = absurd (cc h)

not-false : (b : Bool) → not b ≡ false → b ≡ true
not-false true h = refl
not-false false h = absurd (cc h)

module _ (m : Matching) (config : ExtractionConfig) (known : Option (List String))
    (layer : Option TextLayer) (p : Proposal) (r : ExtractionRecord) where
  verify_at-Locked :
      (part : TextLayerPart) (offset : ℤ)
      → is_empty (strip p.value) ≡ false
      → is_empty (strip p.quote) ≡ false
      → is_known known p.field ≡ true
      → layer_part layer p.part_id ≡ some part
      → p.offset ≡ offset
      → (verify_at m config p part offset).record_ ≡ some r
      → Locked m config known layer p r
  unfolding verify_at verify_window
  verify_at-Locked part (negsuc n) value quote field found at h = absurd (cc h)
  verify_at-Locked part (pos offset) value quote field found at h =
      let (fits, in_range) =
        past_guard (ltb (length part.normalized_text) (offset + length p.quote)) p _ _ _ r h in
      let policy = config.policy_for part.source_type in
      let (says, said) =
        past_guard (lt (match_score m (window part p offset) p.quote) policy.min_score) p _ _ _ r
          in_range in
      let (carries, made) =
        past_guard (not (value_in_quote m p.value p.quote policy)) p _ _ _ r said in
      record {
        part = part;
        offset = offset;
        has_value = value;
        has_quote = quote;
        field_known = field;
        found = found;
        stands_at = at;
        fits = ground (arith, fits);
        opened = record { says = says; carries = not-false _ carries };
        recorded = some_injective (sym made);
      }

  verify_proposal-Locked :
      (verify_proposal m config known layer p).record_ ≡ some r → Locked m config known layer p r
  unfolding verify_proposal verify_in
  verify_proposal-Locked h =
      let (blank, later) =
        past_guard (is_empty (strip p.value) || is_empty (strip p.quote)) p _ _ _ r h in
      let (unknown, known_field) = past_guard (not (is_known known p.field)) p _ _ _ r later in
      let (value, quote) = both_false (is_empty (strip p.value)) (is_empty (strip p.quote)) blank in
      elim (Option-cases (layer_part layer p.part_id)) [
        | inl e ↦ absurd (cc (e, known_field))
        | inr (part, e) ↦
            verify_at-Locked part p.offset value quote (not-false _ unknown) e refl
              (sym (ap (λ o. (verify_in m config p o).record_) e) ∙ known_field)
      ]

  Locked-verify_proposal :
      Locked m config known layer p r → (verify_proposal m config known layer p).record_ ≡ some r
  unfolding verify_proposal verify_in verify_at verify_window
  Locked-verify_proposal l =
      let fits : ltb (length l.part.normalized_text) (l.offset + length p.quote) ≡ false =
        ground (arith, l.fits) in
      rw
        (
          l.has_value, l.has_quote, l.field_known, l.found, l.stands_at, fits, l.opened.says,
          l.opened.carries,
        )
        (ap some (sym l.recorded))

-- Verification makes a record of a proposal if and only if its value and its quote are not blank, its
-- field is known, its part is in the layer, the quote fits into the part at the offset, and both
-- locks open; the record is the one of the proposal and of the score of the text at the offset.
pub verify_proposal_iff :
    (m : Matching) (config : ExtractionConfig) (known : Option (List String))
    (layer : Option TextLayer) (p : Proposal) (r : ExtractionRecord)
    → ((verify_proposal m config known layer p).record_ ≡ some r) ↔ Locked m config known layer p r
verify_proposal_iff m config known layer p r = (
  verify_proposal-Locked m config known layer p r,
  Locked-verify_proposal m config known layer p r,
)
