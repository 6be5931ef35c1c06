-- ===== src/Extract/Verify/Verbatim.antt =====
-- What a record promises about the text that it was verified against.
use optimaler_status.Base.{
  ℕ, ◌≡◌, refl, sym, ap, ◌∙◌, true, false, ◌||◌, Option, some, String, List, ◌++◌, length,
  Bool-cases, inl, inr, arith,
}
use optimaler_status.Python.Float.{Float, lt}
use optimaler_status.Python.Text.{Text, take, drop, is_empty, strip, text_eq, is_part}
use optimaler_status.Python.Text.Slices.{take-drop, length-take, text_eq_sound}
use optimaler_status.Contracts.Envelope.{SourceType, TextLayerPart, TextLayer}
use optimaler_status.TextLayer.Layer.{layer_part}
use optimaler_status.Python.Float.Hundredth.{hundredth}
use optimaler_status.Extract.Records.{
  Proposal, MatchMode, ExtractionRecord, PolicyMode, exact_mode, fuzzy_mode, MatchPolicy,
  ExtractionConfig,
}
use optimaler_status.Extract.Verify.{
  Matching, no_match, full_match, match_score, value_in_quote, record_of, fold, nearly_in,
  verify_proposal, quote_span,
}
use optimaler_status.Extract.Verify.Locks.{window, verify_proposal_iff}

-- The score of different texts, divided by 100.0, is below 1.0.
abbrev pub IsStrict : Matching → Type 0
IsStrict m = (a b : Text) → text_eq a b ≡ false → lt (hundredth (m.ratio a b)) full_match ≡ true

-- _exact_is_exact, for every source type.
abbrev pub IsValidConfig : ExtractionConfig → Type 0
IsValidConfig config =
    (s : SourceType)
    → (config.policy_for s).mode ≡ exact_mode
    → (config.policy_for s).min_score ≡ full_match

no_match-low : lt no_match full_match ≡ true
unfolding full_match lt
no_match-low = refl

match_score-full :
    (m : Matching) (a b : Text) → IsStrict m → lt (match_score m a b) full_match ≡ false → a ≡ b
unfolding match_score
match_score-full m a b strict h = elim (Bool-cases (text_eq a b)) [
  | inl e ↦ text_eq_sound a b e
  | inr n ↦ elim (Bool-cases (is_empty a || is_empty b)) [
    | inl e ↦
        let low : match_score m a b ≡ no_match = rw (n, e) refl in
        absurd (cc (sym (ap (λ x. lt x full_match) low) ∙ h, no_match-low))
    | inr e ↦
        let ratio : match_score m a b ≡ hundredth (m.ratio a b) = rw (n, e) refl in
        absurd (cc (sym (ap (λ x. lt x full_match) ratio) ∙ h, strict a b n))
  ]
]

value_in_quote-exact :
    (m : Matching) (value quote : Text) (policy : MatchPolicy)
    → policy.mode ≡ exact_mode
    → value_in_quote m value quote policy ≡ true
    → (is_empty (fold m value) ≡ false) × (is_part (fold m value) (fold m quote) ≡ true)
unfolding value_in_quote nearly_in
value_in_quote-exact m value quote policy e h = elim (Bool-cases (is_empty (fold m value))) [
  | inl b ↦
      let no : value_in_quote m value quote policy ≡ false = rw b refl in absurd (cc (sym h ∙ no))
  | inr b ↦ elim (Bool-cases (is_part (fold m value) (fold m quote))) [
    | inl c ↦ (b, c)
    | inr c ↦
        let no : value_in_quote m value quote policy ≡ false = rw (b, c, e) refl in
        absurd (cc (sym h ∙ no))
  ]
]

record_of-exact :
    (m : Matching) (config : ExtractionConfig) (p : Proposal) (part : TextLayerPart) (offset : ℕ)
    (score : Float) (mode : PolicyMode)
    → (record_of m config p part offset score mode).match_mode ≡ MatchMode.exact
    → mode ≡ exact_mode
unfolding record_of
record_of-exact m config p part offset score exact_mode h = refl
record_of-exact m config p part offset score fuzzy_mode h = absurd (cc h)

pub record_of-span :
    (m : Matching) (config : ExtractionConfig) (p : Proposal) (part : TextLayerPart) (offset : ℕ)
    (score : Float) (mode : PolicyMode)
    → ((record_of m config p part offset score mode).span ≡ some (quote_span p part offset))
      × ((record_of m config p part offset score mode).value ≡ strip p.value)
      × ((record_of m config p part offset score mode).field ≡ p.field)
unfolding record_of
record_of-span m config p part offset score exact_mode = (refl, refl, refl)
record_of-span m config p part offset score fuzzy_mode = (refl, refl, refl)

-- The slice of a text, put back between what stands before and behind it.
slice-between :
    (text : Text) (offset n : ℕ)
    → text ≡ take offset text ++ (take n (drop offset text) ++ drop n (drop offset text))
slice-between text offset n =
    sym (take-drop offset text)
    ∙ ap (λ later. take offset text ++ later) (sym (take-drop n (drop offset text)))

-- The text of a part of the layer with the quote in it, at the span of the record.
pub record Verbatim (layer : Option TextLayer) (p : Proposal) (r : ExtractionRecord) : Type 0 where
  pub part : TextLayerPart
  pub before : Text
  pub behind : Text
  pub found : layer_part layer p.part_id ≡ some part
  pub reads : part.normalized_text ≡ before ++ (p.quote ++ behind)
  pub spans : r.span ≡ some (quote_span p part (length before))

-- For a configuration whose exact policies ask for a full score, and a ratio whose hundredth is below
-- it for different texts: a record that verification marks as exact has its proposal's quote at its span,
-- word for word, and the folded value is not empty and stands in the folded quote.
pub verify_proposal-Verbatim :
    (m : Matching) (config : ExtractionConfig) (known : Option (List String))
    (layer : Option TextLayer) (p : Proposal) (r : ExtractionRecord)
    → IsStrict m
    → IsValidConfig config
    → (verify_proposal m config known layer p).record_ ≡ some r
    → r.match_mode ≡ MatchMode.exact
    → Verbatim layer p r
      × (r.value ≡ strip p.value)
      × (is_empty (fold m p.value) ≡ false)
      × (is_part (fold m p.value) (fold m p.quote) ≡ true)
verify_proposal-Verbatim m config known layer p r strict valid h exact =
    let l = (verify_proposal_iff m config known layer p r).0 h in
    let policy = config.policy_for l.part.source_type in
    let score = match_score m (window l.part p l.offset) p.quote in
    let mode =
      record_of-exact m config p l.part l.offset score policy.mode
        (ap (λ x. x.match_mode) (sym l.recorded) ∙ exact) in
    let (span, value, field) = record_of-span m config p l.part l.offset score policy.mode in
    let same =
      match_score-full m (window l.part p l.offset) p.quote strict
        (ap (λ f. lt score f) (sym (valid l.part.source_type mode)) ∙ l.opened.says) in
    let (filled, carried) = value_in_quote-exact m p.value p.quote policy mode l.opened.carries in
    let text = l.part.normalized_text in
    let measured = length-take l.offset text (omega (arith, l.fits)) in
    (
      record {
        part = l.part;
        before = take l.offset text;
        behind = drop (length p.quote) (drop l.offset text);
        found = l.found;
        reads =
            slice-between text l.offset (length p.quote)
            ∙ ap (λ q. take l.offset text ++ (q ++ drop (length p.quote) (drop l.offset text)))
                same;
        spans =
            ap (λ x. x.span) l.recorded
            ∙ span
            ∙ ap (λ n. some (quote_span p l.part n)) (sym measured);
      },
      ap (λ x. x.value) l.recorded ∙ value,
      filled,
      carried,
    )
