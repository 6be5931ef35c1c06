-- ===== src/TextLayer/Translate/Bounds.antt =====
-- Spans of the normalized text translate into spans of the original.
use optimaler_status.Base.{
  ℕ, ◌≤◌, ◌<◌, ◌≡◌, sym, subst, ◌∷◌, List, [], some, arith, Bool-cases, inl, inr, leb, ltb, length,
  ◌∙◌, some_injective,
}
use optimaler_status.Python.Text.{Text}
use optimaler_status.Contracts.Envelope.{OffsetSegment}
use optimaler_status.TextLayer.Normalize.{Unicode, NormalizedText, normalize}
use optimaler_status.TextLayer.Normalize.Tiling.{Tiles, IsProductive, normalize-Tiles}
use optimaler_status.TextLayer.Translate.{
  last_end, start_in, end_in, translate_start, translate_end, translate_span,
}

Tiles-le : (n m lo hi : ℕ) (segments : List OffsetSegment) → Tiles n m lo hi segments → lo ≤ hi
Tiles-le n m lo hi [] t = t.1
Tiles-le n m lo hi (s ∷ segments) t =
    omega (arith, t.2, t.3, Tiles-le s.norm_end m s.orig_end hi segments t.4)

start_in-within :
    (behind n m lo hi : ℕ) (segments : List OffsetSegment) (p : ℕ)
    → Tiles n m lo hi segments
    → n ≤ p
    → p < m
    → (lo ≤ start_in behind segments p) × (start_in behind segments p < hi)
unfolding start_in
start_in-within behind n m lo hi [] p t h k = absurd (omega (arith, t.0, h, k))
start_in-within behind n m lo hi (s ∷ segments) p t h k = elim (Bool-cases (ltb p s.norm_end)) [
  | inl q ↦
      let top = Tiles-le s.norm_end m s.orig_end hi segments t.4 in
      (ground (arith, q, t.0, t.2, t.3, h), ground (arith, q, t.0, t.2, t.3, h, top))
  | inr q ↦
      let later =
        start_in-within behind s.norm_end m s.orig_end hi segments p t.4 (ground (arith, q)) k in
      (ground (arith, q, t.2, t.3, later.0), ground (arith, q, later.1))
]

end_in-within :
    (behind n m lo hi : ℕ) (segments : List OffsetSegment) (q : ℕ)
    → Tiles n m lo hi segments
    → n < q
    → q ≤ m
    → (lo < end_in behind segments q) × (end_in behind segments q ≤ hi)
unfolding end_in
end_in-within behind n m lo hi [] q t h k = absurd (omega (arith, t.0, h, k))
end_in-within behind n m lo hi (s ∷ segments) q t h k = elim (Bool-cases (leb q s.norm_end)) [
  | inl b ↦
      let top = Tiles-le s.norm_end m s.orig_end hi segments t.4 in
      (ground (arith, b, t.0, t.2, t.3, h), ground (arith, b, t.0, t.2, t.3, h, top))
  | inr b ↦
      let later =
        end_in-within behind s.norm_end m s.orig_end hi segments q t.4 (ground (arith, b)) k in
      (ground (arith, b, t.2, t.3, later.0), ground (arith, b, later.1))
]

start_in-end_in :
    (behind beyond n m lo hi : ℕ) (segments : List OffsetSegment) (p q : ℕ)
    → Tiles n m lo hi segments
    → n ≤ p
    → p < q
    → q ≤ m
    → start_in behind segments p < end_in beyond segments q
unfolding start_in end_in
start_in-end_in behind beyond n m lo hi [] p q t h l k = absurd (omega (arith, t.0, h, l, k))
start_in-end_in behind beyond n m lo hi (s ∷ segments) p q t h l k =
    elim (Bool-cases (leb q s.norm_end)) [
      | inl b ↦ ground (arith, b, t.0, t.3, h, l)
      | inr b ↦ elim (Bool-cases (ltb p s.norm_end)) [
        | inl c ↦
            let later =
              end_in-within beyond s.norm_end m s.orig_end hi segments q t.4 (ground (arith, b))
                k in
            ground (arith, b, c, t.0, t.3, h, l, later.0)
        | inr c ↦
            let later =
              start_in-end_in behind beyond s.norm_end m s.orig_end hi segments p q t.4
                (ground (arith, c)) l k in
            ground (arith, b, c, later)
      ]
    ]

start_in-monotone :
    (behind n m lo hi : ℕ) (segments : List OffsetSegment) (p q : ℕ)
    → Tiles n m lo hi segments
    → n ≤ p
    → p ≤ q
    → q < m
    → start_in behind segments p ≤ start_in behind segments q
unfolding start_in
start_in-monotone behind n m lo hi [] p q t h l k = absurd (omega (arith, t.0, h, l, k))
start_in-monotone behind n m lo hi (s ∷ segments) p q t h l k =
    elim (Bool-cases (ltb q s.norm_end)) [
      | inl b ↦ ground (arith, b, t.0, t.3, h, l)
      | inr b ↦ elim (Bool-cases (ltb p s.norm_end)) [
        | inl c ↦
            let later =
              start_in-within behind s.norm_end m s.orig_end hi segments q t.4 (ground (arith, b))
                k in
            ground (arith, b, c, t.0, t.3, h, l, later.0)
        | inr c ↦
            let later =
              start_in-monotone behind s.norm_end m s.orig_end hi segments p q t.4
                (ground (arith, c)) l k in
            ground (arith, b, c, later)
      ]
    ]

end_in-monotone :
    (behind n m lo hi : ℕ) (segments : List OffsetSegment) (p q : ℕ)
    → Tiles n m lo hi segments
    → n < p
    → p ≤ q
    → q ≤ m
    → end_in behind segments p ≤ end_in behind segments q
unfolding end_in
end_in-monotone behind n m lo hi [] p q t h l k = absurd (omega (arith, t.0, h, l, k))
end_in-monotone behind n m lo hi (s ∷ segments) p q t h l k = elim (Bool-cases (leb q s.norm_end)) [
  | inl b ↦ ground (arith, b, t.0, t.3, h, l)
  | inr b ↦ elim (Bool-cases (leb p s.norm_end)) [
    | inl c ↦
        let later =
          end_in-within behind s.norm_end m s.orig_end hi segments q t.4 (ground (arith, b)) k in
        ground (arith, b, c, t.0, t.3, h, l, later.0)
    | inr c ↦
        let later =
          end_in-monotone behind s.norm_end m s.orig_end hi segments p q t.4 (ground (arith, c)) l
            k in
        ground (arith, b, c, later)
  ]
]

-- The translated span is not empty and stays between the bounds, and a span inside another one is
-- translated inside the translation of the other one.
abbrev pub Within : ℕ × ℕ → ℕ × ℕ → Type 0
Within inner outer = (outer.0 ≤ inner.0) × (inner.0 < inner.1) × (inner.1 ≤ outer.1)

translate_span-Within :
    (m hi : ℕ) (segments : List OffsetSegment) (start stop : ℕ)
    → Tiles 0 m 0 hi segments
    → start < stop
    → stop ≤ m
    → Within (translate_span segments start stop) (0, hi)
unfolding translate_span translate_start translate_end
translate_span-Within m hi [] start stop t h k = absurd (omega (arith, t.0, h, k))
translate_span-Within m hi (s ∷ segments) start stop t h k =
    let b = last_end s segments in
    let high = end_in-within b 0 m 0 hi (s ∷ segments) stop t (omega (arith, h)) k in
    let apart = start_in-end_in b b 0 m 0 hi (s ∷ segments) start stop t (omega arith) h k in
    (omega arith, ground (arith, h, apart), ground (arith, h, high.1))

translate_span-nested :
    (m hi : ℕ) (segments : List OffsetSegment) (start first last stop : ℕ)
    → Tiles 0 m 0 hi segments
    → start ≤ first
    → first < last
    → last ≤ stop
    → stop ≤ m
    → Within (translate_span segments first last) (translate_span segments start stop)
unfolding translate_span translate_start translate_end
translate_span-nested m hi [] start first last stop t h k l i =
    absurd (omega (arith, t.0, h, k, l, i))
translate_span-nested m hi (s ∷ segments) start first last stop t h k l i =
    let b = last_end s segments in
    let low =
      start_in-monotone b 0 m 0 hi (s ∷ segments) start first t (omega arith) h
        (omega (arith, k, l, i)) in
    let apart =
      start_in-end_in b b 0 m 0 hi (s ∷ segments) first last t (omega arith) k
        (omega (arith, l, i)) in
    let high = end_in-monotone b 0 m 0 hi (s ∷ segments) last stop t (omega (arith, k)) l i in
    (low, ground (arith, k, apart), ground (arith, h, k, l, high))

-- A span of a normalized text that is not empty translates to a span of the original that is not
-- empty and within its bounds, and a span inside it translates inside its translation, where the
-- normal form of a text that is not empty is not empty.
pub translate_span-normalize :
    (u : Unicode) (original : Text) (r : NormalizedText) (start first last stop : ℕ)
    → IsProductive u
    → normalize u original ≡ some r
    → start ≤ first
    → first < last
    → last ≤ stop
    → stop ≤ length r.text
    → Within (translate_span r.segments first last) (translate_span r.segments start stop)
      × Within (translate_span r.segments start stop) (0, length original)
translate_span-normalize u original r start first last stop productive e h k l i =
    let (again, same, tiles) = normalize-Tiles u original productive in
    let t =
      subst (λ x. Tiles 0 (length x.text) 0 (length original) x.segments)
        (some_injective (sym same ∙ e)) tiles in
    (
      translate_span-nested (length r.text) (length original) r.segments start first last stop t h k
          l i,
      translate_span-Within (length r.text) (length original) r.segments start stop t
          (omega (arith, h, k, l)) i,
    )
