-- ===== src/TextLayer/Normalize/Reading.antt =====
-- What the pass over a text looks at: runs, and hyphens at the end of a line.
use optimaler_status.Base.{
  ℕ, suc, ◌≡◌, refl, sym, ap, ap₂, ◌∙◌, Bool, true, ◌&&◌, not, Option, none, some, List, [], ◌∷◌,
  ◌++◌, length, All, Bool-cases, inl, inr, arith, some_injective,
}
use optimaler_status.Python.Text.{Text, is_space, take, drop}
use optimaler_status.Python.Text.Slices.{take-drop}
use optimaler_status.TextLayer.Normalize.{
  Unicode, Emission, is_line_break, run_length, any_break, ends_in_letter, after_letter,
  starts_with_letter, is_hyphenation,
}
use optimaler_status.TextLayer.Normalize.Totality.{IsBlank}

-- A code point of the text passes the test.
pub data Has (test : ℕ → Bool) : Text → Type 0 where
  here : {c : ℕ} {text : Text} → test c ≡ true → Has test (c ∷ text)
  there : {c : ℕ} {text : Text} → Has test text → Has test (c ∷ text)

-- The last code point passes the test.
pub data Ends (test : ℕ → Bool) : Text → Type 0 where
  last : {c : ℕ} → test c ≡ true → Ends test (c ∷ [])
  later : {c d : ℕ} {text : Text} → Ends test (d ∷ text) → Ends test (c ∷ d ∷ text)

-- The first code point passes the test.
abbrev pub Starts : (ℕ → Bool) → Text → Type 0
Starts test text = (c : ℕ) × (more : Text) × (text ≡ c ∷ more) × (test c ≡ true)

-- The piece that was written last.
abbrev pub last_chunk : List Emission → Option Text
last_chunk [] = none
last_chunk (e ∷ []) = some e.chunk
last_chunk (e ∷ f ∷ emissions) = last_chunk (f ∷ emissions)

-- A letter that starts a word behind white space.
abbrev pub starts_word : Unicode → ℕ → Bool
starts_word u c = u.is_alpha c && not (is_space c)

-- A hyphen at the end of a line: a letter before it, white space with a line break behind it, and a
-- letter behind that.
pub record IsHyphen (u : Unicode) (previous : Option Text) (behind rest : Text) : Type 0 where
  pub before : Text
  pub written : previous ≡ some before
  pub letter : Ends u.is_alpha before
  pub gap : Text
  pub split : behind ≡ gap ++ rest
  pub blank : All IsBlank gap
  pub broken : Has is_line_break gap
  pub onward : Starts (starts_word u) rest

abbrev Passes : (ℕ → Bool) → ℕ → Type 0
Passes test c = test c ≡ true

pub take-run_length :
    (test : ℕ → Bool) (text : Text) → All (λ c. test c ≡ true) (take (run_length test text) text)
unfolding run_length take
take-run_length test [] = tt
take-run_length test (c ∷ text) = elim (Bool-cases (test c)) [
  | inl p ↦ rw p (p, take-run_length test text)
  | inr p ↦ rw p tt
]

-- A run goes as far as it can.
pub drop-run_length :
    (test : ℕ → Bool) (text : Text) → ¬ (Starts test (drop (run_length test text) text))
unfolding run_length drop
drop-run_length test [] = λ (c, more, e, h). cc e
drop-run_length test (d ∷ text) = elim (Bool-cases (test d)) [
  | inl p ↦ rw p (drop-run_length test text)
  | inr p ↦ rw p (λ (c, more, e, h). cc (e, h, p))
]

-- The run before a code point that fails.
run_length-split :
    (gap rest : Text)
    → All IsBlank gap
    → ¬ (Starts is_space rest)
    → run_length is_space (gap ++ rest) ≡ length gap
unfolding run_length
run_length-split [] [] h k = refl
run_length-split [] (c ∷ rest) h k = elim (Bool-cases (is_space c)) [
  | inl p ↦ absurd (k (c, rest, refl, p))
  | inr p ↦ rw p refl
]
run_length-split (c ∷ gap) rest h k = rw h.0 (ap (λ n. suc n) (run_length-split gap rest h.1 k))

take-append : (gap rest : Text) → take (length gap) (gap ++ rest) ≡ gap
unfolding take
take-append [] [] = refl
take-append [] (c ∷ rest) = refl
take-append (c ∷ gap) rest = ap (λ t. c ∷ t) (take-append gap rest)

drop-append : (gap rest : Text) → drop (length gap) (gap ++ rest) ≡ rest
unfolding drop
drop-append [] [] = refl
drop-append [] (c ∷ rest) = refl
drop-append (c ∷ gap) rest = drop-append gap rest

any_break-Has : (text : Text) → any_break text ≡ true → Has is_line_break text
unfolding any_break
any_break-Has [] h = absurd (cc h)
any_break-Has (c ∷ text) h = elim (Bool-cases (is_line_break c)) [
  | inl p ↦ here p
  | inr p ↦ there (any_break-Has text (ground (arith, h, p)))
]

Has-any_break : {text : Text} → Has is_line_break text → any_break text ≡ true
unfolding any_break
Has-any_break (here h) = rw h refl
Has-any_break (there {c = c} {text = text} h) = ground (arith, Has-any_break h)

ends_in_letter-Ends :
    (u : Unicode) (text : Text) → ends_in_letter u text ≡ true → Ends u.is_alpha text
unfolding ends_in_letter
ends_in_letter-Ends u [] h = absurd (cc h)
ends_in_letter-Ends u (c ∷ []) h = last h
ends_in_letter-Ends u (c ∷ d ∷ text) h = later (ends_in_letter-Ends u (d ∷ text) h)

Ends-ends_in_letter :
    (u : Unicode) {text : Text} → Ends u.is_alpha text → ends_in_letter u text ≡ true
unfolding ends_in_letter
Ends-ends_in_letter u (last h) = h
Ends-ends_in_letter u (later h) = Ends-ends_in_letter u h

after_letter-Ends :
    (u : Unicode) (es : List Emission)
    → after_letter u es ≡ true
    → (before : Text) × (last_chunk es ≡ some before) × Ends u.is_alpha before
unfolding after_letter
after_letter-Ends u [] h = absurd (cc h)
after_letter-Ends u (e ∷ []) h = (e.chunk, refl, ends_in_letter-Ends u e.chunk h)
after_letter-Ends u (e ∷ f ∷ es) h = after_letter-Ends u (f ∷ es) h

Ends-after_letter :
    (u : Unicode) (es : List Emission) (before : Text)
    → last_chunk es ≡ some before
    → Ends u.is_alpha before
    → after_letter u es ≡ true
unfolding after_letter
Ends-after_letter u [] before e h = absurd (cc e)
Ends-after_letter u (f ∷ []) before e h =
    ap (ends_in_letter u) (some_injective e) ∙ Ends-ends_in_letter u h
Ends-after_letter u (f ∷ g ∷ es) before e h = Ends-after_letter u (g ∷ es) before e h

starts_with_letter-Starts :
    (u : Unicode) (text : Text)
    → starts_with_letter u text ≡ true
    → ¬ (Starts is_space text)
    → Starts (starts_word u) text
starts_with_letter-Starts u [] h k = absurd (cc h)
starts_with_letter-Starts u (c ∷ text) h k = elim (Bool-cases (is_space c)) [
  | inl p ↦ absurd (k (c, text, refl, p))
  | inr p ↦ (c, text, refl, ground (arith, h, p))
]

word_solid :
    (u : Unicode) (c : ℕ) (more rest : Text)
    → rest ≡ c ∷ more
    → starts_word u c ≡ true
    → ¬ (Starts is_space rest)
word_solid u c more rest e word (d, others, f, space) =
    let cons : c ∷ more ≡ d ∷ others = sym e ∙ f in
    let same : c ≡ d = cc cons in
    let blank : is_space c ≡ true = ap is_space same ∙ space in ground (arith, word, blank)

module _ (u : Unicode) (es : List Emission) (behind : Text) where
  pub is_hyphenation-IsHyphen :
      is_hyphenation u es behind ≡ true
      → IsHyphen u (last_chunk es) behind (drop (run_length is_space behind) behind)
  unfolding is_hyphenation
  is_hyphenation-IsHyphen h =
      let spaces = run_length is_space behind in
      let (before, written, letter) = after_letter-Ends u es (ground (arith, h)) in
      record {
        before = before;
        written = written;
        letter = letter;
        gap = take spaces behind;
        split = sym (take-drop spaces behind);
        blank = take-run_length is_space behind;
        broken = any_break-Has (take spaces behind) (ground (arith, h));
        onward =
            starts_with_letter-Starts u (drop spaces behind) (ground (arith, h))
              (drop-run_length is_space behind);
      }

  pub IsHyphen-is_hyphenation :
      (rest : Text) → IsHyphen u (last_chunk es) behind rest → is_hyphenation u es behind ≡ true
  unfolding is_hyphenation
  IsHyphen-is_hyphenation rest h =
      let (c, more, e, word) = h.onward in
      let solid : ¬ (Starts is_space rest) = word_solid u c more rest e word in
      let long : run_length is_space behind ≡ length h.gap =
        ap (run_length is_space) h.split ∙ run_length-split h.gap rest h.blank solid in
      let front : take (run_length is_space behind) behind ≡ h.gap =
        ap₂ take long h.split ∙ take-append h.gap rest in
      let back : drop (run_length is_space behind) behind ≡ rest =
        ap₂ drop long h.split ∙ drop-append h.gap rest in
      let after = Ends-after_letter u es h.before h.written h.letter in
      let starts : starts_with_letter u rest ≡ true = rw e (ground (arith, word)) in
      rw (after, front, back, Has-any_break h.broken, starts) refl
