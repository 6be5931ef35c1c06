-- ===== src/TextLayer/Normalize/Origin.antt =====
-- Where the code points of a normalized text come from.
use mathlib.Core.List.{append-nil, append_assoc}
use mathlib.Core.Option.{map}
use optimaler_status.Base.{
  ℕ, zero, suc, ◌==◌, ◌≡◌, ◌≢◌, refl, sym, ap, ◌∙◌, true, false, ◌&&◌, not, Option, none, some,
  List, [], ◌∷◌, ◌++◌, length, All, inl, inr, ◌⊎◌, Bool-cases, if◌then◌else◌, arith, some_injective,
  subst,
}
use optimaler_status.Python.Text.{Text, is_space, is_empty, take, drop}
use optimaler_status.TextLayer.Normalize.{
  Unicode, Emission, emission, run_length, is_hyphenation, scan_step, scan_loop, emit, text_of,
  NormalizedText, normalized, normalize,
}
use optimaler_status.TextLayer.Normalize.Reading.{
  Starts, last_chunk, IsHyphen, take-run_length, drop-run_length, is_hyphenation-IsHyphen,
  IsHyphen-is_hyphenation,
}
use optimaler_status.Python.Text.Slices.{take-drop}
use optimaler_status.TextLayer.Normalize.Totality.{IsBlank, emit_total}

-- Whether the hyphenation of a word is at this code point.
pub record IsHyphenation (u : Unicode) (previous : Option Text) (c : ℕ) (behind : Text)
    : Type 0 where
  pub hyphen : c ≡ 45
  pub rest : Text
  pub joined : IsHyphen u previous behind rest

-- The normal form of a text, read from left to right behind the piece that was written last: white
-- space at the start or the end is dropped; other white space, as far as it goes, becomes one space;
-- a hyphen at the end of a line is dropped with the white space behind it; and any other code
-- point, with all the combining ones behind it, becomes its normal form.
pub data Explained (u : Unicode) : Option Text → Text → Text → Type 0 where
  finished :
      {previous : Option Text} {original out : Text}
      → original ≡ []
      → out ≡ []
      → Explained u previous original out
  stripped :
      {previous : Option Text} {original out : Text} (gap rest : Text)
      → original ≡ gap ++ rest
      → All IsBlank gap
      → (previous ≡ none) ⊎ (rest ≡ [])
      → Explained u previous rest out
      → Explained u previous original out
  spaced :
      {previous : Option Text} {original out : Text} (gap rest later : Text)
      → previous ≢ none
      → gap ≢ []
      → original ≡ gap ++ rest
      → All IsBlank gap
      → rest ≢ []
      → ¬ (Starts is_space rest)
      → out ≡ 32 ∷ later
      → Explained u (some (32 ∷ [])) rest later
      → Explained u previous original out
  joined :
      {previous : Option Text} {original out : Text} (behind rest : Text)
      → original ≡ 45 ∷ behind
      → IsHyphen u previous behind rest
      → Explained u previous rest out
      → Explained u previous original out
  kept :
      {previous : Option Text} {original out : Text} (c : ℕ) (marks rest later : Text)
      → original ≡ c ∷ (marks ++ rest)
      → is_space c ≡ false
      → ¬ (IsHyphenation u previous c (marks ++ rest))
      → All (λ (m : ℕ). u.is_combining m ≡ true) marks
      → ¬ (Starts u.is_combining rest)
      → out ≡ u.nfc (c ∷ marks) ++ later
      → Explained u (some (u.nfc (c ∷ marks))) rest later
      → Explained u previous original out

text_of-append :
    (es : List Emission) (e : Emission) (later : Text)
    → text_of (es ++ e ∷ []) ++ later ≡ text_of es ++ (e.chunk ++ later)
unfolding text_of
text_of-append [] e later = ap (λ t. t ++ later) (append-nil e.chunk)
text_of-append (f ∷ es) e later =
    append_assoc f.chunk (text_of (es ++ e ∷ [])) later
    ∙ ap (λ t. f.chunk ++ t) (text_of-append es e later)
    ∙ sym (append_assoc f.chunk (text_of es) (e.chunk ++ later))

last_chunk-append : (es : List Emission) (e : Emission) → last_chunk (es ++ e ∷ []) ≡ some e.chunk
last_chunk-append [] e = refl
last_chunk-append (f ∷ []) e = refl
last_chunk-append (f ∷ g ∷ es) e = last_chunk-append (g ∷ es) e

last_chunk-none : (es : List Emission) → is_empty es ≡ true → last_chunk es ≡ none
last_chunk-none [] h = refl
last_chunk-none (e ∷ es) h = absurd (cc h)

last_chunk-some : (es : List Emission) → is_empty es ≡ false → last_chunk es ≢ none
last_chunk-some [] h k = absurd (cc h)
last_chunk-some (e ∷ []) h k = cc k
last_chunk-some (e ∷ f ∷ es) h k = last_chunk-some (f ∷ es) refl k

nothing_left : (text : Text) → is_empty text ≡ true → text ≡ []
nothing_left [] h = refl
nothing_left (c ∷ text) h = absurd (cc h)

something_left : (text : Text) → is_empty text ≡ false → text ≢ []
something_left text h e = cc (h, ap is_empty e)

-- What the pass adds to the text that it has emitted.
abbrev Added : Unicode → Text → List Emission → List Emission → Type 0
Added u text before es =
    (later : Text) × (text_of es ≡ text_of before ++ later)
    × Explained u (last_chunk before) text later

module _ (u : Unicode) (index c : ℕ) (behind : Text) (before es : List Emission) where
  -- A run behind the code point, and the text behind the run.
  split_behind : (n : ℕ) → c ∷ behind ≡ (c ∷ take n behind) ++ drop n behind
  split_behind n = ap (λ t. c ∷ t) (sym (take-drop n behind))

  dropped-Added :
      (n : ℕ)
      → All IsBlank (c ∷ take n behind)
      → (last_chunk before ≡ none) ⊎ (drop n behind ≡ [])
      → Added u (drop n behind) before es
      → Added u (c ∷ behind) before es
  dropped-Added n blank where_ (later, same, why) =
      (later, same, stripped (c ∷ take n behind) (drop n behind) (split_behind n) blank where_ why)

  -- What follows a piece that was written.
  written :
      (e : Emission) (rest : Text)
      → Added u rest (before ++ e ∷ []) es
      → (later : Text) × (text_of es ≡ text_of before ++ (e.chunk ++ later))
        × Explained u (some e.chunk) rest later
  written e rest (later, same, why) = (
    later,
    same ∙ text_of-append before e later,
    subst (λ p. Explained u p rest later) (last_chunk-append before e) why,
  )

  whitespace-Added :
      is_space c ≡ true
      → (let n = run_length is_space behind in
          Added u
            (drop n behind)
            (if not (is_empty before) && not (is_empty (drop n behind))
              then before ++ emission index (32 ∷ []) n ∷ []
              else before)
            es)
      → Added u (c ∷ behind) before es
  whitespace-Added space added =
      let n = run_length is_space behind in
      let blank : All IsBlank (c ∷ take n behind) = (space, take-run_length is_space behind) in
      elim (Bool-cases (is_empty before)) [
        | inl first ↦ dropped-Added n blank (inl (last_chunk-none before first)) (rw first at added)
        | inr later ↦ elim (Bool-cases (is_empty (drop n behind))) [
          | inl end ↦
              dropped-Added n blank (inr (nothing_left (drop n behind) end))
                (rw (later, end) at added)
          | inr more ↦
              let (rest, same, why) =
                written (emission index (32 ∷ []) n) (drop n behind) (rw (later, more) at added) in
              (
                32 ∷ rest,
                same,
                spaced (c ∷ take n behind) (drop n behind) rest (last_chunk-some before later)
                    (λ e. cc e) (split_behind n) blank (something_left (drop n behind) more)
                    (drop-run_length is_space behind) refl why,
              )
        ]
      ]

  joined-Added :
      (c == 45) && is_hyphenation u before behind ≡ true
      → Added u (drop (run_length is_space behind) behind) before es
      → Added u (c ∷ behind) before es
  joined-Added h (later, same, why) =
      let hyphen : c ≡ 45 = ground (arith, h) in
      (
        later,
        same,
        joined behind (drop (run_length is_space behind) behind) (ap (λ x. x ∷ behind) hyphen)
            (is_hyphenation-IsHyphen u before behind (ground (arith, h))) why,
      )

  not-IsHyphenation :
      (c == 45) && is_hyphenation u before behind ≡ false
      → ¬ (IsHyphenation u (last_chunk before) c behind)
  not-IsHyphenation h k =
      ground (arith, h, k.hyphen, IsHyphen-is_hyphenation u before behind k.rest k.joined)

  cluster-Added :
      is_space c ≡ false
      → (c == 45) && is_hyphenation u before behind ≡ false
      → (let n = run_length u.is_combining behind in
          Added u (drop n behind) (before ++ emission index (u.nfc (c ∷ take n behind)) n ∷ []) es)
      → Added u (c ∷ behind) before es
  cluster-Added solid plain added =
      let n = run_length u.is_combining behind in
      let (rest, same, why) =
        written (emission index (u.nfc (c ∷ take n behind)) n) (drop n behind) added in
      let no : ¬ (IsHyphenation u (last_chunk before) c (take n behind ++ drop n behind)) =
        subst (λ t. ¬ (IsHyphenation u (last_chunk before) c t)) (sym (take-drop n behind))
          (not-IsHyphenation plain) in
      (
        u.nfc (c ∷ take n behind) ++ rest,
        same,
        kept c (take n behind) (drop n behind) rest (split_behind n) solid no
            (take-run_length u.is_combining behind) (drop-run_length u.is_combining behind) refl
            why,
      )

  step-Added :
      (let s = scan_step u index c behind before in Added u s.rest s.emissions es)
      → Added u (c ∷ behind) before es
  unfolding scan_step
  step-Added added = elim (Bool-cases (is_space c)) [
    | inl space ↦ whitespace-Added space (rw space at added)
    | inr solid ↦ elim (Bool-cases ((c == 45) && is_hyphenation u before behind)) [
      | inl hyphen ↦ joined-Added hyphen (rw (solid, hyphen) at added)
      | inr plain ↦ cluster-Added solid plain (rw (solid, plain) at added)
    ]
  ]

scan_loop-Added :
    (u : Unicode) (fuel index : ℕ) (text : Text) (before es : List Emission)
    → scan_loop u fuel index text before ≡ some es
    → Added u text before es
unfolding scan_loop
scan_loop-Added u fuel index [] before es h = (
  [],
  ap text_of (sym (some_injective h)) ∙ sym (append-nil (text_of before)),
  finished refl refl,
)
scan_loop-Added u zero index (c ∷ behind) before es h = absurd (cc h)
scan_loop-Added u (suc fuel) index (c ∷ behind) before es h =
    let s = scan_step u index c behind before in
    step-Added u index c behind before es (scan_loop-Added u fuel s.index s.rest s.emissions es h)

-- Normalizing ends, with the normal form of the text: read from left to right, white space at the
-- start or the end is dropped; other white space, as far as it goes, becomes one space; a hyphen at
-- the end of a line, with a letter before it and one that starts the next line, is dropped with the
-- white space behind it; and any other code point, with all the combining ones behind it, becomes
-- its normal form.
pub normalize-Explained :
    (u : Unicode) (original : Text)
    → (r : NormalizedText) × (normalize u original ≡ some r) × Explained u none original r.text
unfolding normalize emit text_of
normalize-Explained u original =
    let (es, h) = emit_total u original in
    let (later, same, why) = scan_loop-Added u (length original) 0 original [] es h in
    (normalized es, ap (map normalized) h, rw same why)
