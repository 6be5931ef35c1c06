-- ===== src/Redact/Placeholders/RoundTrip.antt =====
-- The syntax reads back as it was written.
use optimaler_status.Base.{
  ℕ, ◌≡◌, refl, sym, ap, ap₂, ◌∙◌, subst, Bool, true, false, ◌&&◌, none, some, List, [], ◌∷◌, ◌++◌,
  length, bind_option, bind_option-some, Bool-cases, Option-cases, inl, inr, All, arith,
  some_injective,
}
use optimaler_status.Python.Text.{Text, is_empty, left_strip, right_strip, strip, text_eq}
use optimaler_status.Python.Text.Slices.{text_eq_sound}
use optimaler_status.Python.Result.{ok, err, ok_injective, placeholder_error}
use optimaler_status.Redact.Placeholders.{
  token_length, is_token_char, is_capital, Kind, kind_text, all_kinds, find_kind, Placeholder,
  opening, closing, written, format_placeholder, Match, match_at, whole, full_match_of, from_match,
  parsed, parse_placeholder, vsnr, gebdat, addr, name, org, bnr, iban, stid, aktz, email, tel, text,
}
use optimaler_status.Redact.Placeholders.Pattern.{IsMatch, match_at-written, match_at_sound}

-- A text that is not empty and keeps its end when it is stripped.
Stable : Text → Type 0
Stable chars = (right_strip chars ≡ chars) × (is_empty chars ≡ false)

Stable-cons : (c : ℕ) (chars : Text) → Stable chars → Stable (c ∷ chars)
unfolding Stable right_strip
Stable-cons c [] h = absurd (cc h.1)
Stable-cons c (d ∷ chars) h = (rw (h.0) refl, refl)

Stable-append : (front chars : Text) → Stable chars → Stable (front ++ chars)
Stable-append [] chars h = h
Stable-append (c ∷ front) chars h = Stable-cons c (front ++ chars) (Stable-append front chars h)

strip-written : (kind token : Text) → strip (written kind token []) ≡ written kind token []
unfolding strip left_strip written Stable right_strip
strip-written kind token =
    let tail = Stable-append token (closing ++ []) (refl, refl) in
    (Stable-append opening _ (Stable-append kind _ (Stable-cons 124 _ tail))).0

all_capitals : Text → Bool
all_capitals [] = true
all_capitals (c ∷ word) = is_capital c && all_capitals word

all_capitals_sound : (word : Text) → all_capitals word ≡ true → All (λ c. is_capital c ≡ true) word
unfolding all_capitals
all_capitals_sound [] h = tt
all_capitals_sound (c ∷ word) h =
    let rest : all_capitals word ≡ true = ground (arith, h) in
    (ground (arith, h), all_capitals_sound word rest)

kind_text-capitals :
    (k : Kind) → (is_empty (kind_text k) ≡ false) × (all_capitals (kind_text k) ≡ true)
unfolding all_capitals
kind_text-capitals vsnr = (refl, refl)
kind_text-capitals gebdat = (refl, refl)
kind_text-capitals addr = (refl, refl)
kind_text-capitals name = (refl, refl)
kind_text-capitals org = (refl, refl)
kind_text-capitals bnr = (refl, refl)
kind_text-capitals iban = (refl, refl)
kind_text-capitals stid = (refl, refl)
kind_text-capitals aktz = (refl, refl)
kind_text-capitals email = (refl, refl)
kind_text-capitals tel = (refl, refl)
kind_text-capitals text = (refl, refl)

find_kind-text : (k : Kind) → find_kind all_kinds (kind_text k) ≡ some k
unfolding find_kind
find_kind-text vsnr = refl
find_kind-text gebdat = refl
find_kind-text addr = refl
find_kind-text name = refl
find_kind-text org = refl
find_kind-text bnr = refl
find_kind-text iban = refl
find_kind-text stid = refl
find_kind-text aktz = refl
find_kind-text email = refl
find_kind-text tel = refl
find_kind-text text = refl

find_kind_sound :
    (kinds : List Kind) (word : Text) (k : Kind)
    → find_kind kinds word ≡ some k
    → kind_text k ≡ word
unfolding find_kind
find_kind_sound [] word k h = absurd (cc h)
find_kind_sound (first ∷ kinds) word k h = elim (Bool-cases (text_eq (kind_text first) word)) [
  | inl b ↦
      let same : first ≡ k = some_injective (sym (rw b refl) ∙ h) in
      ap kind_text (sym same) ∙ text_eq_sound (kind_text first) word b
  | inr b ↦ find_kind_sound kinds word k (sym (rw b refl) ∙ h)
]

IsToken : Text → Type 0
IsToken token = (length token ≡ token_length) × All (λ c. is_token_char c ≡ true) token

-- A word of capitals and a token are matched as a whole.
full_match-written :
    (kind token : Text)
    → is_empty kind ≡ false
    → All (λ c. is_capital c ≡ true) kind
    → IsToken token
    → full_match_of (strip (written kind token []))
      ≡ some (record { kind = kind; token = token; behind = [] })
unfolding full_match_of IsToken
full_match-written kind token filled capitals is_token =
    let m : Match = record { kind = kind; token = token; behind = [] } in
    let found = match_at-written m (record {
      has_kind = filled;
      capitals = capitals;
      long = is_token.0;
      letters = is_token.1;
    }) in
    ap (λ x. bind_option (match_at x) whole) (strip-written kind token)
    ∙ ap (λ o. bind_option o whole) found

parse_placeholder-written :
    (kind token : Text)
    → is_empty kind ≡ false
    → All (λ c. is_capital c ≡ true) kind
    → IsToken token
    → parse_placeholder (written kind token [])
      ≡ parsed (some (record { kind = kind; token = token; behind = [] }))
unfolding parse_placeholder
parse_placeholder-written kind token filled capitals is_token =
    ap parsed (full_match-written kind token filled capitals is_token)

-- A placeholder whose token has twelve characters of the alphabet is parsed back from the text that it
-- is formatted to.
pub parse_placeholder-format_placeholder :
    (kind : Kind) (token : Text)
    → length token ≡ token_length
    → All (λ c. is_token_char c ≡ true) token
    → parse_placeholder (format_placeholder kind token)
      ≡ ok (some (record { kind = kind; token = token }))
unfolding format_placeholder from_match IsToken
parse_placeholder-format_placeholder kind token long letters =
    let (filled, capitals) = kind_text-capitals kind in
    parse_placeholder-written (kind_text kind) token filled (all_capitals_sound _ capitals)
      (long, letters)
    ∙ rw (find_kind-text kind) refl

-- Around a word of capitals that is not the name of a kind and a token with twelve characters of the
-- alphabet, the syntax makes parsing raise PlaceholderError.
pub parse_placeholder-unknown :
    (kind token : Text)
    → is_empty kind ≡ false
    → All (λ c. is_capital c ≡ true) kind
    → find_kind all_kinds kind ≡ none
    → length token ≡ token_length
    → All (λ c. is_token_char c ≡ true) token
    → parse_placeholder (written kind token []) ≡ err placeholder_error
unfolding from_match IsToken
parse_placeholder-unknown kind token filled capitals unknown long letters =
    parse_placeholder-written kind token filled capitals (long, letters) ∙ rw unknown refl

is_empty-nil : (chars : Text) → is_empty chars ≡ true → chars ≡ []
is_empty-nil [] h = refl
is_empty-nil (c ∷ chars) h = absurd (cc h)

whole_sound : (m found : Match) → whole found ≡ some m → (found ≡ m) × (m.behind ≡ [])
whole_sound m found h = elim (Bool-cases (is_empty found.behind)) [
  | inl b ↦
      let same : found ≡ m = some_injective (sym (rw b refl) ∙ h) in
      (same, ap (λ x. x.behind) (sym same) ∙ is_empty-nil found.behind b)
  | inr b ↦ let no : whole found ≡ none = rw b refl in absurd (cc (sym no ∙ h))
]

full_match_sound :
    (chars : Text) (m : Match)
    → full_match_of chars ≡ some m
    → (chars ≡ written m.kind m.token []) × IsMatch m
unfolding full_match_of
full_match_sound chars m h =
    let (found, e, w) = bind_option-some (match_at chars) whole h in
    let (same, ends) = whole_sound m found w in
    let (is_match, reads) = match_at_sound chars m (e ∙ ap some same) in
    (reads ∙ ap (written m.kind m.token) ends, is_match)

parsed-some :
    (m : Match) (p : Placeholder)
    → parsed (some m) ≡ ok (some p)
    → (kind_text p.kind ≡ m.kind) × (p.token ≡ m.token)
unfolding from_match
parsed-some m p h = elim (Option-cases (find_kind all_kinds m.kind)) [
  | inl e ↦ let no : parsed (some m) ≡ err placeholder_error = rw e refl in absurd (cc (sym no ∙ h))
  | inr (k, e) ↦
      let yes : parsed (some m) ≡ ok (some (record { kind = k; token = m.token })) = rw e refl in
      let same = some_injective (ok_injective (sym yes ∙ h)) in
      (
        ap (λ x. kind_text x.kind) (sym same) ∙ find_kind_sound all_kinds m.kind k e,
        ap (λ x. x.token) (sym same),
      )
]

-- What was parsed as a placeholder is, without the white space around it, the text that the
-- placeholder is formatted to, and its token has twelve characters of the alphabet.
pub parse_placeholder_sound :
    (chars : Text) (p : Placeholder)
    → parse_placeholder chars ≡ ok (some p)
    → (strip chars ≡ format_placeholder p.kind p.token)
      × (length p.token ≡ token_length)
      × All (λ c. is_token_char c ≡ true) p.token
unfolding parse_placeholder format_placeholder
parse_placeholder_sound chars p h = elim (Option-cases (full_match_of (strip chars))) [
  | inl e ↦ absurd (cc (ok_injective (sym (ap parsed e) ∙ h)))
  | inr (m, e) ↦
      let (reads, is_match) = full_match_sound (strip chars) m e in
      let (kind, token) = parsed-some m p (sym (ap parsed e) ∙ h) in
      (
        reads ∙ ap₂ (λ k t. written k t []) (sym kind) (sym token),
        ap length token ∙ is_match.long,
        subst (All (λ c. is_token_char c ≡ true)) (sym token) is_match.letters,
      )
]
