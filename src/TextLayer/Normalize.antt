-- ===== src/TextLayer/Normalize.antt =====
-- engine/textlayer/normalize.py: one pass over a text, and the segments of its offset map.
pub mod Totality
pub mod Tiling
pub mod Reading
pub mod Origin
use optimaler_status.Base.{
  ℕ, zero, suc, ◌+◌, ◌-◌, Bool, true, false, ◌&&◌, ◌||◌, not, Option, none, some, List, [], ◌∷◌,
  ◌++◌, length, leb, ltb, ◌==◌, if◌then◌else◌,
}
use mathlib.Core.Option.{map}
use optimaler_status.Contracts.Envelope.{OffsetSegment}
use optimaler_status.Python.Text.{Text, is_space, take, drop, is_empty}

-- unicodedata and str.isalpha: a test of combining characters, a test of letters and the
-- normal form C.
pub record Unicode : Type 0 where
  pub is_combining : ℕ → Bool
  pub is_alpha : ℕ → Bool
  pub nfc : Text → Text

-- A piece of normalized text, and the range of the original that it came from.
pub record Emission : Type 0 where
  pub chunk : Text
  pub start : ℕ
  pub stop : ℕ

-- char in LINE_BREAKS
abbrev pub is_line_break : ℕ → Bool
is_line_break c = (leb 10 c && leb c 13) || (leb 28 c && leb c 30) || (c == 8232) || (c == 8233)

-- How many code points from here on pass a test.
unfoldable pub run_length : (ℕ → Bool) → Text → ℕ
run_length test [] = 0
run_length test (c ∷ text) = if test c then suc (run_length test text) else 0

-- Whether a code point of the text is a line break.
unfoldable pub any_break : Text → Bool
any_break [] = false
any_break (c ∷ text) = is_line_break c || any_break text

-- Whether the last code point is a letter.
unfoldable pub ends_in_letter : Unicode → Text → Bool
ends_in_letter u [] = false
ends_in_letter u (c ∷ []) = u.is_alpha c
ends_in_letter u (c ∷ d ∷ text) = ends_in_letter u (d ∷ text)

-- Whether the last emission ends in a letter.
unfoldable pub after_letter : Unicode → List Emission → Bool
unfolding ends_in_letter
after_letter u [] = false
after_letter u (e ∷ []) = ends_in_letter u e.chunk
after_letter u (e ∷ f ∷ emissions) = after_letter u (f ∷ emissions)

abbrev pub starts_with_letter : Unicode → Text → Bool
starts_with_letter u [] = false
starts_with_letter u (c ∷ text) = u.is_alpha c

-- _is_hyphenation, with the text behind the hyphen.
unfoldable pub is_hyphenation : Unicode → List Emission → Text → Bool
unfolding after_letter run_length take drop any_break
is_hyphenation u emissions behind =
    let spaces = run_length is_space behind in
    after_letter u emissions
    && (any_break (take spaces behind) && starts_with_letter u (drop spaces behind))

-- The variables of the loop: the index, the text from there on, and what was emitted.
pub record Cursor : Type 0 where
  pub index : ℕ
  pub rest : Text
  pub emissions : List Emission

-- The cursor behind a character at this index and the n code points after it.
abbrev advance : ℕ → Text → ℕ → List Emission → Cursor
advance index behind n emissions = record {
  index = index + suc n;
  rest = drop n behind;
  emissions = emissions;
}

abbrev pub emission : ℕ → Text → ℕ → Emission
emission index chunk n = record { chunk = chunk; start = index; stop = index + suc n }

-- _emit_whitespace, for a space and the n spaces behind it
abbrev emit_whitespace : ℕ → Text → List Emission → ℕ → Cursor
emit_whitespace index behind emissions n = advance index behind n (
    if not (is_empty emissions) && not (is_empty (drop n behind))
    then emissions ++ emission index (32 ∷ []) n ∷ []
    else emissions)

-- A character with the n combining ones behind it.
abbrev emit_cluster : Unicode → ℕ → ℕ → Text → List Emission → ℕ → Cursor
emit_cluster u index c behind emissions n =
    advance index behind n (emissions ++ emission index (u.nfc (c ∷ take n behind)) n ∷ [])

-- The body of the loop of _emit, at the character c with the text behind it.
unfoldable pub scan_step : Unicode → ℕ → ℕ → Text → List Emission → Cursor
unfolding is_hyphenation run_length take drop
scan_step u index c behind emissions =
    if is_space c
    then emit_whitespace index behind emissions (run_length is_space behind)
    else if (c == 45) && is_hyphenation u emissions behind
    then advance index behind (run_length is_space behind) emissions
    else emit_cluster u index c behind emissions (run_length u.is_combining behind)

-- The loop, with fuel for its rounds; none is a run that the fuel did not suffice for.
unfoldable pub scan_loop : Unicode → ℕ → ℕ → Text → List Emission → Option (List Emission)
unfolding scan_step
scan_loop u fuel index [] emissions = some emissions
scan_loop u zero index (c ∷ behind) emissions = none
scan_loop u (suc fuel) index (c ∷ behind) emissions =
    let s = scan_step u index c behind emissions in scan_loop u fuel s.index s.rest s.emissions

-- _emit: each round takes at least one code point.
unfoldable pub emit : Unicode → Text → Option (List Emission)
unfolding scan_loop
emit u original = scan_loop u (length original) 0 original []

-- _is_one_to_one and _same_length: the lengths are differences, which no range has below zero.
abbrev pub same_length : OffsetSegment → Bool
same_length s = s.norm_end - s.norm_start == s.orig_end - s.orig_start

abbrev pub segment_of : ℕ → Emission → OffsetSegment
segment_of position e = record {
  norm_start = position;
  norm_end = position + length e.chunk;
  orig_start = e.start;
  orig_end = e.stop;
}

-- Whether the last segment goes on with an emission.
abbrev pub joins : OffsetSegment → ℕ → Emission → Bool
joins last position e =
    (length e.chunk == e.stop - e.start)
    && same_length last
    && (last.norm_end == position)
    && (last.orig_end == e.start)

-- The segments from the last one on, for the emissions that are left.
unfoldable pub segments_after : OffsetSegment → ℕ → List Emission → List OffsetSegment
segments_after last position [] = last ∷ []
segments_after last position (e ∷ emissions) =
    let next = position + length e.chunk in
    let grown =
      segments_after (record last { norm_end = next; orig_end = e.stop }) next emissions in
    let apart = last ∷ segments_after (segment_of position e) next emissions in
    if joins last position e then grown else apart

unfoldable pub segments_of : List Emission → List OffsetSegment
unfolding segments_after
segments_of [] = []
segments_of (e ∷ emissions) = segments_after (segment_of 0 e) (length e.chunk) emissions

-- "".join(chunk for chunk, _, _ in emissions)
unfoldable pub text_of : List Emission → Text
text_of [] = []
text_of (e ∷ emissions) = e.chunk ++ text_of emissions

pub record NormalizedText : Type 0 where
  pub text : Text
  pub segments : List OffsetSegment

abbrev pub normalized : List Emission → NormalizedText
normalized emissions = record { text = text_of emissions; segments = segments_of emissions }

unfoldable pub normalize : Unicode → Text → Option NormalizedText
unfolding emit segments_of text_of
normalize u original = map normalized (emit u original)
