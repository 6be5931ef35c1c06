-- ===== src/Redact/Placeholders/Pattern.antt =====
-- The pattern matches what is written in the syntax, and nothing else.
use optimaler_status.Base.{
  ℕ, zero, suc, ◌≡◌, refl, sym, ap, ap₂, ◌∙◌, subst, Bool, true, false, none, some, [], ◌∷◌, ◌++◌,
  length, ◌==◌, ==_iff, bind_option-some, Bool-cases, Option-cases, inl, inr, All, arith,
  some_injective,
}
use optimaler_status.Python.Text.{Text, is_empty}
use optimaler_status.Redact.Placeholders.{
  token_length, is_token_char, is_capital, opening, closing, written, behind_literal, run_of,
  exactly, Match, match_token, match_kind, match_at,
}

behind_literal-append :
    (literal chars : Text) → behind_literal literal (literal ++ chars) ≡ some chars
unfolding behind_literal
behind_literal-append [] chars = refl
behind_literal-append (c ∷ literal) chars =
    let same : (c == c) ≡ true = ground arith in rw same (behind_literal-append literal chars)

behind_literal_sound :
    (literal chars behind : Text)
    → behind_literal literal chars ≡ some behind
    → chars ≡ literal ++ behind
unfolding behind_literal
behind_literal_sound [] chars behind h = some_injective h
behind_literal_sound (c ∷ literal) [] behind h = absurd (cc h)
behind_literal_sound (c ∷ literal) (d ∷ chars) behind h = elim (Bool-cases (c == d)) [
  | inl b ↦
      ap₂ (λ x l. x ∷ l) (sym ((==_iff c d).0 b))
        (behind_literal_sound literal chars behind (sym (rw b refl) ∙ h))
  | inr b ↦
      let no : behind_literal (c ∷ literal) (d ∷ chars) ≡ none = rw b refl in
      absurd (cc (sym no ∙ h))
]

module _ (test : ℕ → Bool) where
  run_of-append :
      (run : Text) (c : ℕ) (chars : Text)
      → All (λ d. test d ≡ true) run
      → test c ≡ false
      → run_of test (run ++ (c ∷ chars)) ≡ (run, c ∷ chars)
  unfolding run_of
  run_of-append [] c chars h k = rw k refl
  run_of-append (d ∷ run) c chars h k = rw (h.0, run_of-append run c chars h.1 k) refl

  run_of_sound :
      (chars : Text)
      → (chars ≡ (run_of test chars).0 ++ (run_of test chars).1)
        × All (λ d. test d ≡ true) (run_of test chars).0
  unfolding run_of
  run_of_sound [] = (refl, tt)
  run_of_sound (c ∷ chars) = elim (Bool-cases (test c)) [
    | inl b ↦ let rest = run_of_sound chars in rw b (ap (λ l. c ∷ l) rest.0, (b, rest.1))
    | inr b ↦ rw b (refl, tt)
  ]

  exactly-append :
      (n : ℕ) (run chars : Text)
      → length run ≡ n
      → All (λ d. test d ≡ true) run
      → exactly test n (run ++ chars) ≡ some (run, chars)
  unfolding exactly
  exactly-append zero [] chars e h = refl
  exactly-append zero (d ∷ run) chars e h = absurd (omega (arith, e))
  exactly-append (suc n) [] chars e h = absurd (omega (arith, e))
  exactly-append (suc n) (d ∷ run) chars e h =
      rw (h.0, exactly-append n run chars (omega (arith, e)) h.1) refl

  Taken : ℕ → Text → Text × Text → Type 0
  Taken n chars taken =
      (chars ≡ taken.0 ++ taken.1) × (length taken.0 ≡ n) × All (λ d. test d ≡ true) taken.0

  exactly_sound :
      (n : ℕ) (chars : Text) (taken : Text × Text)
      → exactly test n chars ≡ some taken
      → Taken n chars taken
  unfolding exactly Taken
  exactly_sound zero chars taken h = subst (Taken 0 chars) (some_injective h) (refl, refl, tt)
  exactly_sound (suc n) [] taken h = absurd (cc h)
  exactly_sound (suc n) (c ∷ chars) taken h = elim (Bool-cases (test c)) [
    | inl b ↦ elim (Option-cases (exactly test n chars)) [
      | inl e ↦
          let no : exactly test (suc n) (c ∷ chars) ≡ none = rw (b, e) refl in
          absurd (cc (sym no ∙ h))
      | inr (later, e) ↦
          let yes : exactly test (suc n) (c ∷ chars) ≡ some (c ∷ later.0, later.1) =
            rw (b, e) refl in
          let (reads, long, passes) = exactly_sound n chars later e in
          subst (Taken (suc n) (c ∷ chars)) (some_injective (sym yes ∙ h))
            (ap (λ l. c ∷ l) reads, ap (λ k. suc k) long, (b, passes))
    ]
    | inr b ↦
        let no : exactly test (suc n) (c ∷ chars) ≡ none = rw b refl in absurd (cc (sym no ∙ h))
  ]

-- A word and a token that the pattern accepts: capitals, and as many characters of the alphabet as a
-- token has.
pub record IsMatch (m : Match) : Type 0 where
  pub has_kind : is_empty m.kind ≡ false
  pub capitals : All (λ c. is_capital c ≡ true) m.kind
  pub long : length m.token ≡ token_length
  pub letters : All (λ c. is_token_char c ≡ true) m.token

pub match_at-written : (m : Match) → IsMatch m → match_at (written m.kind m.token m.behind) ≡ some m
unfolding match_at written
match_at-written m h =
    let word =
      run_of-append is_capital m.kind 124 (m.token ++ (closing ++ m.behind)) h.capitals refl in
    let token =
      exactly-append is_token_char token_length m.token (closing ++ m.behind) h.long h.letters in
    rw (word, h.has_kind, token) refl

-- What stands behind the word for the kind.
match_token_sound :
    (kind rest : Text) (m : Match)
    → match_token kind rest ≡ some m
    → (m.kind ≡ kind)
      × (length m.token ≡ token_length)
      × All (λ c. is_token_char c ≡ true) m.token
      × (rest ≡ 124 ∷ (m.token ++ (closing ++ m.behind)))
unfolding Taken
match_token_sound kind rest m h =
    let (later, bar, h1) = bind_option-some (behind_literal (124 ∷ []) rest) _ h in
    let (taken, token, h2) = bind_option-some (exactly is_token_char token_length later) _ h1 in
    let (behind, close, h3) = bind_option-some (behind_literal closing taken.1) _ h2 in
    let (reads, long, letters) = exactly_sound is_token_char token_length later taken token in
    let same = some_injective h3 in
    (
      ap (λ x. x.kind) (sym same),
      ap (λ x. length x.token) (sym same) ∙ long,
      subst (λ x. All (λ c. is_token_char c ≡ true) x.token) same letters,
      behind_literal_sound (124 ∷ []) rest later bar
          ∙ ap (λ l. 124 ∷ l)
              (reads
                ∙ ap (λ l. taken.0 ++ l) (behind_literal_sound closing taken.1 behind close)
                ∙ ap (λ x. x.token ++ (closing ++ x.behind)) same),
    )

pub match_at_sound :
    (chars : Text) (m : Match)
    → match_at chars ≡ some m
    → IsMatch m × (chars ≡ written m.kind m.token m.behind)
unfolding match_at written
match_at_sound chars m h =
    let (rest, opened, h1) = bind_option-some (behind_literal opening chars) _ h in
    let run = run_of is_capital rest in
    let (reads, capitals) = run_of_sound is_capital rest in
    elim (Bool-cases (is_empty run.0)) [
      | inl b ↦ let no : match_kind run ≡ none = rw b refl in absurd (cc (sym no ∙ h1))
      | inr b ↦
          let yes : match_kind run ≡ match_token run.0 run.1 = rw b refl in
          let (kind, long, letters, behind) = match_token_sound run.0 run.1 m (sym yes ∙ h1) in
          (
            record {
              has_kind = ap is_empty kind ∙ b;
              capitals = subst (All (λ c. is_capital c ≡ true)) (sym kind) capitals;
              long = long;
              letters = letters;
            },
            behind_literal_sound opening chars rest opened
                ∙ ap (λ l. opening ++ l) (reads ∙ ap₂ (λ k l. k ++ l) (sym kind) behind),
          )
    ]
