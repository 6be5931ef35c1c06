-- ===== src/Extract/Verify/Ranges.antt =====
-- About the ranges of the scores and confidences that records carry.
use optimaler_status.Base.{◌*◌, ℕ, ◌≡◌, refl, true, Bool-cases, inl, inr, ◌||◌}
use optimaler_status.Python.Float.{Float, finite, lt, le, one}
use optimaler_status.Python.Float.Hundredth.{hundredth, hundredth-in_range}
use optimaler_status.Base.Int.{pos}
use optimaler_status.Python.Text.{Text, text_eq, is_empty}
use optimaler_status.Contracts.Envelope.{TextLayerPart}
use optimaler_status.Extract.Records.{
  Proposal, ExtractionConfig, PolicyMode, exact_mode, fuzzy_mode, in_range, is_valid_record,
}
use optimaler_status.Extract.Verify.{
  Matching, no_match, full_match, match_score, max_float, record_of,
}

-- The score of two texts is from 0 to 100, and rounding to four places keeps a number there.
pub record IsScoring (m : Matching) : Type 0 where
  pub ratio :
      (a b : Text)
      → (le (finite (pos 0)) (m.ratio a b) ≡ true)
        × (le (m.ratio a b) (finite (pos (100 * one))) ≡ true)
  pub rounded : (x : Float) → in_range x ≡ true → in_range (m.round4 x) ≡ true

-- What the loader demands of the confidences.
pub record IsConfident (config : ExtractionConfig) : Type 0 where
  pub exact : in_range config.confidence.exact ≡ true
  pub floor : in_range config.confidence.fuzzy_floor ≡ true

no_match-in_range : in_range no_match ≡ true
unfolding in_range
no_match-in_range = refl

pub full_match-in_range : in_range full_match ≡ true
unfolding in_range full_match
full_match-in_range = refl

ratio-in_range :
    (m : Matching) (a b : Text) → IsScoring m → in_range (hundredth (m.ratio a b)) ≡ true
unfolding in_range
ratio-in_range m a b h =
    let (low, high) = h.ratio a b in
    let (above, below) = hundredth-in_range (m.ratio a b) low high in rw (above, below) refl

pub match_score-in_range :
    (m : Matching) (window quote : Text)
    → IsScoring m
    → in_range (match_score m window quote) ≡ true
unfolding match_score
match_score-in_range m window quote h = elim (Bool-cases (text_eq window quote)) [
  | inl same ↦ rw same full_match-in_range
  | inr differ ↦ elim (Bool-cases (is_empty window || is_empty quote)) [
    | inl empty ↦ rw (differ, empty) no_match-in_range
    | inr filled ↦ rw (differ, filled) (ratio-in_range m window quote h)
  ]
]

max_float-in_range :
    (a b : Float) → in_range a ≡ true → in_range b ≡ true → in_range (max_float a b) ≡ true
max_float-in_range a b h k = elim (Bool-cases (lt a b)) [ inl p ↦ rw p k | inr p ↦ rw p h ]

pub record_of-valid :
    (m : Matching) (config : ExtractionConfig) (p : Proposal) (part : TextLayerPart) (offset : ℕ)
    (score : Float) (mode : PolicyMode)
    → IsScoring m
    → IsConfident config
    → in_range score ≡ true
    → is_valid_record (record_of m config p part offset score mode) ≡ true
unfolding record_of is_valid_record
record_of-valid m config p part offset score exact_mode h k s = rw k.exact refl
record_of-valid m config p part offset score fuzzy_mode h k s =
    let rounded = h.rounded score s in
    rw (rounded, max_float-in_range config.confidence.fuzzy_floor (m.round4 score) k.floor rounded)
      refl
