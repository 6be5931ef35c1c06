-- ===== src/Extract/Verify.antt =====
-- engine/extract/verify.py: the two locks that a proposal passes before it is a record.
pub mod Locks
pub mod Verbatim
pub mod Ranges
pub mod Batch
pub mod Provenance
use optimaler_status.Base.{
  ℕ, ◌+◌, Bool, true, false, ◌||◌, not, Option, none, some, String, List, [], ◌∷◌, length, ltb,
  if◌then◌else◌, is_member,
}
use optimaler_status.Base.Int.{ℤ, pos, negsuc}
use optimaler_status.Python.Float.{Float, finite, lt, le, one}
use optimaler_status.Python.Float.Hundredth.{hundredth}
use optimaler_status.Python.Text.{Text, take, drop, is_empty, strip, words, join, text_eq, is_part}
use optimaler_status.Contracts.Common.{Span}
use optimaler_status.Contracts.Envelope.{TextLayerPart, TextLayer}
use optimaler_status.TextLayer.Layer.{layer_part}
use optimaler_status.Extract.Records.{
  Proposal, MatchMode, ExtractionRecord, PolicyMode, exact_mode, fuzzy_mode, MatchPolicy,
  ExtractionConfig, FailureKind, Verification, accepted,
}

-- rapidfuzz, str.casefold and round: `ratio` and `partial_ratio` are the scores of fuzz, and `round4`
-- is round(x, 4).
pub record Matching : Type 0 where
  pub ratio : Text → Text → Float
  pub partial_ratio : Text → Text → Float
  pub casefold : Text → Text
  pub round4 : Float → Float

-- 0.0 and 1.0
abbrev pub no_match : Float
no_match = finite (pos 0)

unfoldable pub full_match : Float
unfolding one
full_match = finite (pos one)

unfoldable pub match_score : Matching → Text → Text → Float
unfolding text_eq full_match hundredth
match_score m window quote =
    if text_eq window quote
    then full_match
    else (if is_empty window || is_empty quote then no_match else hundredth (m.ratio window quote))

-- _fold
unfoldable pub fold : Matching → Text → Text
unfolding words join
fold m text = m.casefold (join (32 ∷ []) (words text))

-- What a value that does not occur in the quote is worth under the policy.
unfoldable pub nearly_in : Matching → Text → Text → Float → PolicyMode → Bool
unfolding le hundredth
nearly_in m needle haystack min_score exact_mode = false
nearly_in m needle haystack min_score fuzzy_mode =
    le min_score (hundredth (m.partial_ratio needle haystack))

unfoldable pub value_in_quote : Matching → Text → Text → MatchPolicy → Bool
unfolding fold is_part nearly_in
value_in_quote m value quote policy =
    let needle = fold m value in
    let haystack = fold m quote in
    if is_empty needle
    then false
    else (if is_part needle haystack
        then true
        else nearly_in m needle haystack policy.min_score policy.mode)

-- max(a, b)
abbrev pub max_float : Float → Float → Float
max_float a b = if lt a b then b else a

-- The span of the quote at this offset.
abbrev pub quote_span : Proposal → TextLayerPart → ℕ → Span
quote_span p part offset = record {
  part_id = part.part_id;
  start = offset;
  stop = offset + length p.quote;
}

-- _record
unfoldable pub record_of :
    Matching
    → ExtractionConfig
    → Proposal
    → TextLayerPart
    → ℕ
    → Float
    → PolicyMode
    → ExtractionRecord
unfolding strip lt
record_of m config p part offset score exact_mode = record {
  field = p.field;
  value = strip p.value;
  span = some (quote_span p part offset);
  match_mode = MatchMode.exact;
  match_score = none;
  confidence = config.confidence.exact;
  extractor_id = p.extractor_id;
}
record_of m config p part offset score fuzzy_mode = record {
  field = p.field;
  value = strip p.value;
  span = some (quote_span p part offset);
  match_mode = MatchMode.fuzzy;
  match_score = some (m.round4 score);
  confidence = max_float config.confidence.fuzzy_floor (m.round4 score);
  extractor_id = p.extractor_id;
}

abbrev pub failed : Proposal → FailureKind → Float → Verification
failed p kind score = record { proposal = p; record_ = none; failure = some kind; score = score }

-- The text at the offset against the quote, and the value against the quote.
unfoldable pub verify_window :
    Matching → ExtractionConfig → Proposal → TextLayerPart → ℕ → Verification
unfolding match_score lt value_in_quote record_of take drop
verify_window m config p part offset =
    let policy = config.policy_for part.source_type in
    let score = match_score m (take (length p.quote) (drop offset part.normalized_text)) p.quote in
    if lt score policy.min_score
    then failed p FailureKind.quote_mismatch score
    else (if not (value_in_quote m p.value p.quote policy)
        then failed p FailureKind.value_not_in_quote score
        else record {
          proposal = p;
          record_ = some (record_of m config p part offset score policy.mode);
          failure = none;
          score = no_match;
        })

unfoldable pub verify_at : Matching → ExtractionConfig → Proposal → TextLayerPart → ℤ → Verification
unfolding verify_window
verify_at m config p part (negsuc n) = failed p FailureKind.offset_out_of_range no_match
verify_at m config p part (pos offset) =
    if ltb (length part.normalized_text) (offset + length p.quote)
    then failed p FailureKind.offset_out_of_range no_match
    else verify_window m config p part offset

unfoldable pub verify_in :
    Matching → ExtractionConfig → Proposal → Option TextLayerPart → Verification
unfolding verify_at
verify_in m config p none = failed p FailureKind.unknown_part no_match
verify_in m config p (some part) = verify_at m config p part p.offset

-- known_fields is None or a set.
abbrev pub is_known : Option (List String) → String → Bool
is_known none field = true
is_known (some fields) field = is_member field fields

unfoldable pub verify_proposal :
    Matching → ExtractionConfig → Option (List String) → Option TextLayer → Proposal → Verification
unfolding strip verify_in layer_part
verify_proposal m config known layer p =
    if is_empty (strip p.value) || is_empty (strip p.quote)
    then failed p FailureKind.empty_value no_match
    else (if not (is_known known p.field)
        then failed p FailureKind.unknown_field no_match
        else verify_in m config p (layer_part layer p.part_id))

-- The loop of verify_proposals, with the fields that are taken.
unfoldable pub verify_all :
    Matching
    → ExtractionConfig
    → Option (List String)
    → Option TextLayer
    → List String
    → List Proposal
    → List Verification
unfolding verify_proposal
verify_all m config known layer seen [] = []
verify_all m config known layer seen (p ∷ proposals) =
    let outcome = verify_proposal m config known layer p in
    let skipped = verify_all m config known layer seen proposals in
    let later =
      verify_all m config known layer (if accepted outcome then p.field ∷ seen else seen)
        proposals in
    if is_member p.field seen
    then failed p FailureKind.duplicate_field no_match ∷ skipped
    else outcome ∷ later

unfoldable pub verify_proposals :
    Matching
    → ExtractionConfig
    → Option (List String)
    → List String
    → Option TextLayer
    → List Proposal
    → List Verification
unfolding verify_all
verify_proposals m config known taken layer proposals =
    verify_all m config known layer taken proposals
