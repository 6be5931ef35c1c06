-- ===== src/TextLayer/Translate.antt =====
-- engine/textlayer/normalize.py: translate_span, from normalized to original coordinates.
pub mod Bounds
use optimaler_status.Base.{
  ℕ, ◌+◌, ◌-◌, ◌≡◌, refl, Bool, true, false, ◌&&◌, List, [], ◌∷◌, leb, ltb, ◌==◌, if◌then◌else◌,
}
use optimaler_status.Contracts.Envelope.{OffsetSegment}
use optimaler_status.TextLayer.Normalize.{same_length}

-- segments[-1].orig_end
unfoldable pub last_end : OffsetSegment → List OffsetSegment → ℕ
last_end s [] = s.orig_end
last_end s (t ∷ segments) = last_end t segments

-- The loop of _translate_start, with what it returns where no segment holds the position.
unfoldable pub start_in : ℕ → List OffsetSegment → ℕ → ℕ
start_in behind [] start = behind
start_in behind (s ∷ segments) start =
    let later = start_in behind segments start in
    if leb s.norm_start start && ltb start s.norm_end
    then (if same_length s then s.orig_start + (start - s.norm_start) else s.orig_start)
    else later

-- The loop of _translate_end.
unfoldable pub end_in : ℕ → List OffsetSegment → ℕ → ℕ
end_in behind [] stop = behind
end_in behind (s ∷ segments) stop =
    let later = end_in behind segments stop in
    if ltb s.norm_start stop && leb stop s.norm_end
    then (if same_length s then s.orig_start + (stop - s.norm_start) else s.orig_end)
    else later

unfoldable pub translate_start : OffsetSegment → List OffsetSegment → ℕ → ℕ
unfolding start_in last_end
translate_start s segments start = start_in (last_end s segments) (s ∷ segments) start

unfoldable pub translate_end : OffsetSegment → List OffsetSegment → ℕ → ℕ
unfolding end_in last_end
translate_end s segments stop =
    if stop == 0 then s.orig_start else end_in (last_end s segments) (s ∷ segments) stop

abbrev larger : ℕ → ℕ → ℕ
larger a b = if ltb a b then b else a

-- A span's ends are not negative.
unfoldable pub translate_span : List OffsetSegment → ℕ → ℕ → ℕ × ℕ
unfolding translate_start translate_end
translate_span [] start stop = (0, 0)
translate_span (s ∷ segments) start stop =
    (translate_start s segments start, translate_end s segments (larger stop start))
