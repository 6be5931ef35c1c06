-- ===== src/TextLayer/Normalize/Tiling.antt =====
-- The segments cover the normalized text, in order, by ranges of the original.
use mathlib.Core.Option.{map}
use optimaler_status.Base.{
  ℕ, zero, suc, ◌+◌, ◌≤◌, ◌<◌, ◌≡◌, refl, sym, ap, subst, some, List, [], ◌∷◌, ◌++◌, length,
  length-append, arith, Bool-cases, inl, inr, some_injective,
}
use optimaler_status.Python.Text.{Text, take}
use optimaler_status.Contracts.Envelope.{OffsetSegment}
use optimaler_status.TextLayer.Normalize.{
  Unicode, Emission, Cursor, emission, scan_step, scan_loop, emit, segments_after, segment_of,
  segments_of, text_of, NormalizedText, normalized, normalize, joins,
}
use optimaler_status.Python.Text.Slices.{length-drop}
use optimaler_status.TextLayer.Normalize.Totality.{Advanced, scan_step-Advanced, emit_total}

-- The normal form of a text that is not empty is not empty.
abbrev pub IsProductive : Unicode → Type 0
IsProductive u = (c : ℕ) (text : Text) → 0 < length (u.nfc (c ∷ text))

-- Pieces with text in them, from ranges of the original between lo and hi that are not empty, one
-- behind the other.
abbrev pub Ordered : ℕ → List Emission → ℕ → Type 0
Ordered lo [] hi = lo ≤ hi
Ordered lo (e ∷ emissions) hi =
    (lo ≤ e.start) × (e.start < e.stop) × (0 < length e.chunk) × Ordered e.stop emissions hi

Ordered-le :
    (lo : ℕ) (es : List Emission) (hi top : ℕ) → hi ≤ top → Ordered lo es hi → Ordered lo es top
Ordered-le lo [] hi top h k = omega (arith, h, k)
Ordered-le lo (e ∷ es) hi top h k = (k.0, k.1, k.2, Ordered-le e.stop es hi top h k.3)

Ordered-append :
    (lo : ℕ) (es : List Emission) (index n : ℕ) (chunk : Text)
    → 0 < length chunk
    → Ordered lo es index
    → Ordered lo (es ++ emission index chunk n ∷ []) (index + suc n)
Ordered-append lo [] index n chunk h k = (k, omega arith, h, omega arith)
Ordered-append lo (e ∷ es) index n chunk h k =
    (k.0, k.1, k.2, Ordered-append e.stop es index n chunk h k.3)

step-Ordered :
    (u : Unicode) (index c : ℕ) (behind : Text) (before : List Emission) (s : Cursor)
    → IsProductive u
    → Advanced u index c behind before s
    → Ordered 0 before index
    → Ordered 0 s.emissions s.index
step-Ordered u index c behind before s productive a h =
    subst (Ordered 0 s.emissions) (sym a.index_is) (elim a.emitted [
      | inl (e, gap) ↦
          subst (λ es. Ordered 0 es (index + suc a.taken)) (sym e)
            (Ordered-le 0 before index (index + suc a.taken) (omega arith) h)
      | inr (inl (e, blank)) ↦
          subst (λ es. Ordered 0 es (index + suc a.taken)) (sym e)
            (Ordered-append 0 before index a.taken (32 ∷ []) (omega arith) h)
      | inr (inr e) ↦
          subst (λ es. Ordered 0 es (index + suc a.taken)) (sym e)
            (Ordered-append 0 before index a.taken _ (productive c (take a.taken behind)) h)
    ])

scan_loop-Ordered :
    (u : Unicode) (fuel index : ℕ) (text : Text) (before es : List Emission) (total : ℕ)
    → IsProductive u
    → index + length text ≡ total
    → Ordered 0 before index
    → scan_loop u fuel index text before ≡ some es
    → Ordered 0 es total
unfolding scan_loop
scan_loop-Ordered u fuel index [] before es total productive n h k =
    subst (λ x. Ordered 0 x total) (some_injective k)
      (subst (Ordered 0 before) (omega (arith, n)) h)
scan_loop-Ordered u zero index (c ∷ behind) before es total productive n h k = absurd (cc k)
scan_loop-Ordered u (suc fuel) index (c ∷ behind) before es total productive n h k =
    let s = scan_step u index c behind before in
    let a = scan_step-Advanced u index c behind before in
    scan_loop-Ordered u fuel s.index s.rest s.emissions es total productive
      (omega (arith, n, a.index_is, a.within, ap length a.rest_is, length-drop a.taken behind))
      (step-Ordered u index c behind before s productive a h) k

-- Segments that cover the positions n to m of the normalized text without a gap, by ranges of the
-- original between lo and hi, one behind the other; no range is empty.
abbrev pub Tiles : ℕ → ℕ → ℕ → ℕ → List OffsetSegment → Type 0
Tiles n m lo hi [] = (n ≡ m) × (lo ≤ hi)
Tiles n m lo hi (s ∷ segments) =
    (s.norm_start ≡ n)
    × (n < s.norm_end)
    × (lo ≤ s.orig_start)
    × (s.orig_start < s.orig_end)
    × Tiles s.norm_end m s.orig_end hi segments

segments_after-Tiles :
    (last : OffsetSegment) (position lo hi : ℕ) (es : List Emission)
    → last.norm_end ≡ position
    → last.norm_start < last.norm_end
    → lo ≤ last.orig_start
    → last.orig_start < last.orig_end
    → Ordered last.orig_end es hi
    → Tiles last.norm_start (position + length (text_of es)) lo hi (segments_after last position es)
unfolding segments_after text_of
segments_after-Tiles last position lo hi [] p q r t h = (refl, q, r, t, (omega (arith, p), h))
segments_after-Tiles last position lo hi (e ∷ es) p q r t h =
    let next = position + length e.chunk in
    let moved : next + length (text_of es) ≡ position + length (e.chunk ++ text_of es) =
      omega (arith, length-append e.chunk (text_of es)) in
    elim (Bool-cases (joins last position e)) [
      | inl j ↦ rw j (
          subst
            (λ m.
              Tiles last.norm_start m lo hi
                (segments_after (record last { norm_end = next; orig_end = e.stop }) next es))
            moved
            (segments_after-Tiles (record last { norm_end = next; orig_end = e.stop }) next lo hi es
              refl (omega (arith, p, q)) r (omega (arith, t, h.0, h.1)) h.3))
      | inr j ↦ rw j (
        refl,
        q,
        r,
        t,
        subst
            (λ n.
              Tiles n (position + length (e.chunk ++ text_of es)) last.orig_end hi
                (segments_after (segment_of position e) next es))
            (sym p)
            (subst
              (λ m.
                Tiles position m last.orig_end hi (segments_after (segment_of position e) next es))
              moved
              (segments_after-Tiles (segment_of position e) next last.orig_end hi es refl
                (omega (arith, h.2)) h.0 h.1 h.3)),
      )
    ]

segments_of-Tiles :
    (es : List Emission) (hi : ℕ)
    → Ordered 0 es hi
    → Tiles 0 (length (text_of es)) 0 hi (segments_of es)
unfolding segments_of text_of
segments_of-Tiles [] hi h = (refl, h)
segments_of-Tiles (e ∷ es) hi h =
    subst (λ m. Tiles 0 m 0 hi (segments_after (segment_of 0 e) (length e.chunk) es))
      (omega (arith, length-append e.chunk (text_of es)))
      (segments_after-Tiles (segment_of 0 e) (length e.chunk) 0 hi es (omega arith)
        (omega (arith, h.2)) (omega arith) h.1 h.3)

-- Where the normal form of a text that is not empty is not empty, normalizing ends with a text and
-- segments that cover the text without a gap or an overlap, by ranges of the original that are not
-- empty, do not overlap and are in order.
pub normalize-Tiles :
    (u : Unicode) (original : Text)
    → IsProductive u
    → (r : NormalizedText) × (normalize u original ≡ some r)
      × Tiles 0 (length r.text) 0 (length original) r.segments
unfolding normalize emit
normalize-Tiles u original productive =
    let (es, h) = emit_total u original in
    (
      normalized es,
      ap (map normalized) h,
      segments_of-Tiles es (length original) (
          scan_loop-Ordered u (length original) 0 original [] es (length original) productive
            (omega arith) (omega arith) h),
    )
