-- ===== src/TextLayer/Normalize/Totality.antt =====
-- The pass ends: as much fuel as the text is long suffices.
use optimaler_status.Base.{
  ℕ, zero, suc, ◌+◌, ◌≤◌, ◌≡◌, refl, ap, Bool, true, false, ◌&&◌, not, some, List, [], ◌∷◌, ◌++◌,
  length, All, arith, ◌==◌, if◌then◌else◌, Bool-cases, ◌⊎◌, inl, inr,
}
use optimaler_status.Python.Text.{Text, is_space, take, drop, is_empty}
use optimaler_status.Python.Text.Slices.{length-drop}
use optimaler_status.TextLayer.Normalize.{
  Unicode, Emission, Cursor, run_length, is_hyphenation, emission, scan_step, scan_loop, emit,
}

run_length-le : (test : ℕ → Bool) (text : Text) → run_length test text ≤ length text
unfolding run_length
run_length-le test [] = omega arith
run_length-le test (c ∷ text) = ground (arith, run_length-le test text)

abbrev pub IsBlank : ℕ → Type 0
IsBlank c = is_space c ≡ true

-- What may be left out: white space and hyphens.
abbrev pub IsGap : ℕ → Type 0
IsGap c = IsBlank c ⊎ (c ≡ 45)

take-run_length-IsBlank : (text : Text) → All IsBlank (take (run_length is_space text) text)
unfolding run_length take
take-run_length-IsBlank [] = tt
take-run_length-IsBlank (c ∷ text) = elim (Bool-cases (is_space c)) [
  | inl p ↦ rw p (p, take-run_length-IsBlank text)
  | inr p ↦ rw p tt
]

IsBlank-IsGap : (text : Text) → All IsBlank text → All IsGap text
IsBlank-IsGap [] h = tt
IsBlank-IsGap (c ∷ text) h = (inl h.0, IsBlank-IsGap text h.1)

-- What a step does: it takes n code points behind the character, and emits nothing for white space
-- and hyphens, a space for white space, or the normal form of all that it takes.
pub record Advanced (u : Unicode) (index c : ℕ) (behind : Text) (before : List Emission)
    (s : Cursor) : Type 0 where
  pub taken : ℕ
  pub within : taken ≤ length behind
  pub index_is : s.index ≡ index + suc taken
  pub rest_is : s.rest ≡ drop taken behind
  pub emitted :
      ((s.emissions ≡ before) × All IsGap (c ∷ take taken behind))
      ⊎ ((s.emissions ≡ before ++ emission index (32 ∷ []) taken ∷ [])
          × All IsBlank (c ∷ take taken behind))
      ⊎ (s.emissions ≡ before ++ emission index (u.nfc (c ∷ take taken behind)) taken ∷ [])

pub scan_step-Advanced :
    (u : Unicode) (index c : ℕ) (behind : Text) (before : List Emission)
    → Advanced u index c behind before (scan_step u index c behind before)
unfolding scan_step
scan_step-Advanced u index c behind before = elim (Bool-cases (is_space c)) [
  | inl p ↦ rw p (record {
    taken = run_length is_space behind;
    within = run_length-le is_space behind;
    index_is = refl;
    rest_is = refl;
    emitted =
        spaced (not (is_empty before) && not (is_empty (drop (run_length is_space behind) behind)))
          (p, take-run_length-IsBlank behind);
  })
  | inr p ↦ elim (Bool-cases ((c == 45) && is_hyphenation u before behind)) [
    | inl q ↦
        rw (p, q)
          (record {
            taken = run_length is_space behind;
            within = run_length-le is_space behind;
            index_is = refl;
            rest_is = refl;
            emitted =
                inl (
                  refl,
                  (inr (ground (arith, q)), IsBlank-IsGap _ (take-run_length-IsBlank behind)),
                );
          })
    | inr q ↦
        rw (p, q)
          (record {
            taken = run_length u.is_combining behind;
            within = run_length-le u.is_combining behind;
            index_is = refl;
            rest_is = refl;
            emitted = inr (inr refl);
          })
  ]
]
  where
    spaces : ℕ
    spaces = run_length is_space behind

    piece : Emission
    piece = emission index (32 ∷ []) spaces

    spaced :
        (b : Bool)
        → All IsBlank (c ∷ take spaces behind)
        → (((if b then before ++ piece ∷ [] else before) ≡ before)
            × All IsGap (c ∷ take spaces behind))
          ⊎ (((if b then before ++ piece ∷ [] else before) ≡ before ++ piece ∷ [])
              × All IsBlank (c ∷ take spaces behind))
          ⊎ ((if b then before ++ piece ∷ [] else before)
              ≡ before ++ emission index (u.nfc (c ∷ take spaces behind)) spaces ∷ [])
    spaced true h = inr (inl (refl, h))
    spaced false h = inl (refl, IsBlank-IsGap (c ∷ take spaces behind) h)

scan_loop_total :
    (u : Unicode) (fuel index : ℕ) (text : Text) (before : List Emission)
    → length text ≤ fuel
    → (emissions : List Emission) × (scan_loop u fuel index text before ≡ some emissions)
unfolding scan_loop
scan_loop_total u fuel index [] before h = (before, refl)
scan_loop_total u zero index (c ∷ behind) before h = absurd (omega (arith, h))
scan_loop_total u (suc fuel) index (c ∷ behind) before h =
    let s = scan_step u index c behind before in
    let a = scan_step-Advanced u index c behind before in
    scan_loop_total u fuel s.index s.rest s.emissions
      (omega (arith, h, ap length a.rest_is, length-drop a.taken behind))

-- The pass over a text ends with a list of emissions.
pub emit_total :
    (u : Unicode) (original : Text)
    → (emissions : List Emission) × (emit u original ≡ some emissions)
unfolding emit
emit_total u original = scan_loop_total u (length original) 0 original [] (omega arith)
