-- ===== src/Redact/Placeholders.antt =====
-- engine/redact/placeholders.py: the reserved syntax, `[[PII|KIND|TOKEN]]`.
pub mod Pattern
pub mod RoundTrip
use optimaler_status.Base.{
  ℕ, zero, suc, ◌+◌, Bool, true, false, ◌&&◌, ◌||◌, Option, none, some, String, List, [], ◌∷◌, ◌++◌,
  length, leb, ◌==◌, if◌then◌else◌, bind_option,
}
use optimaler_status.Base.TextOrder.{codes}
use optimaler_status.Python.Text.{Text, is_empty, strip, text_eq}
use optimaler_status.Python.Result.{Result, ok, err, ◌>>=◌, placeholder_error}

abbrev pub token_length : ℕ
token_length = 12

unfoldable pub has_code : ℕ → Text → Bool
has_code c [] = false
has_code c (d ∷ text) = (c == d) || has_code c text

-- char in ALPHABET
unfoldable pub is_token_char : ℕ → Bool
unfolding has_code
is_token_char c = has_code c (codes "BCDFGHJKMNPQRSTVWXZ23456789")

-- [A-Z]
abbrev pub is_capital : ℕ → Bool
is_capital c = leb 65 c && leb c 90

pub data Kind : Type 0 where
  vsnr gebdat addr name org bnr iban stid aktz email tel text : Kind

-- Kind.value
abbrev pub kind_text : Kind → Text
kind_text vsnr = codes "VSNR"
kind_text gebdat = codes "GEBDAT"
kind_text addr = codes "ADDR"
kind_text name = codes "NAME"
kind_text org = codes "ORG"
kind_text bnr = codes "BNR"
kind_text iban = codes "IBAN"
kind_text stid = codes "STID"
kind_text aktz = codes "AKTZ"
kind_text email = codes "EMAIL"
kind_text tel = codes "TEL"
kind_text text = codes "TEXT"

-- iter_kinds
abbrev pub all_kinds : List Kind
all_kinds = vsnr ∷ gebdat ∷ addr ∷ name ∷ org ∷ bnr ∷ iban ∷ stid ∷ aktz ∷ email ∷ tel ∷ text ∷ []

unfoldable pub find_kind : List Kind → Text → Option Kind
unfolding text_eq
find_kind [] word = none
find_kind (k ∷ kinds) word = if text_eq (kind_text k) word then some k else find_kind kinds word

pub record Placeholder : Type 0 where
  pub kind : Kind
  pub token : Text

abbrev pub opening : Text
opening = codes "[[PII|"

abbrev pub closing : Text
closing = codes "]]"

-- The syntax around a word for the kind and a token, before more text.
unfoldable pub written : Text → Text → Text → Text
written kind token behind = opening ++ (kind ++ (124 ∷ (token ++ (closing ++ behind))))

-- Placeholder.__str__ and format_placeholder
unfoldable pub format_placeholder : Kind → Text → Text
unfolding written
format_placeholder kind token = written (kind_text kind) token []

-- The text behind a literal, where it stands there.
unfoldable pub behind_literal : Text → Text → Option Text
behind_literal [] chars = some chars
behind_literal (c ∷ literal) [] = none
behind_literal (c ∷ literal) (d ∷ chars) =
    let rest = behind_literal literal chars in if c == d then rest else none

-- The longest run of code points that pass a test, and the text behind it.
abbrev before_run : ℕ → Text × Text → Text × Text
before_run c later = (c ∷ later.0, later.1)

unfoldable pub run_of : (ℕ → Bool) → Text → Text × Text
run_of test [] = ([], [])
run_of test (c ∷ chars) =
    let later = run_of test chars in if test c then before_run c later else ([], c ∷ chars)

-- So many code points that pass a test, and the text behind them.
abbrev before_exactly : ℕ → Option (Text × Text) → Option (Text × Text)
before_exactly c none = none
before_exactly c (some later) = some (before_run c later)

unfoldable pub exactly : (ℕ → Bool) → ℕ → Text → Option (Text × Text)
exactly test zero chars = some ([], chars)
exactly test (suc n) [] = none
exactly test (suc n) (c ∷ chars) =
    let later = exactly test n chars in if test c then before_exactly c later else none

-- A match: the word for the kind, the token, and the text behind.
pub record Match : Type 0 where
  pub kind : Text
  pub token : Text
  pub behind : Text

abbrev pub match_close : Text → Text → Text → Option Match
match_close kind token rest =
    bind_option (behind_literal closing rest)
      (λ behind. some (record { kind = kind; token = token; behind = behind }))

abbrev pub match_token : Text → Text → Option Match
match_token kind rest = bind_option (behind_literal (124 ∷ []) rest) (λ later.
    bind_option (exactly is_token_char token_length later) (λ t. match_close kind t.0 t.1))

abbrev pub match_kind : Text × Text → Option Match
match_kind run = if is_empty run.0 then none else match_token run.0 run.1

-- PLACEHOLDER_RE.match
unfoldable pub match_at : Text → Option Match
unfolding behind_literal run_of exactly is_token_char
match_at chars =
    bind_option (behind_literal opening chars) (λ rest. match_kind (run_of is_capital rest))

-- PLACEHOLDER_RE.fullmatch
abbrev pub whole : Match → Option Match
whole m = if is_empty m.behind then some m else none

unfoldable pub full_match_of : Text → Option Match
unfolding match_at
full_match_of chars = bind_option (match_at chars) whole

-- _from_match: Kind(...) knows the word, or PlaceholderError.
abbrev pub placeholder_of : Option Kind → Text → Result Placeholder
placeholder_of none token = err placeholder_error
placeholder_of (some kind) token = ok (record { kind = kind; token = token })

unfoldable pub from_match : Match → Result Placeholder
unfolding find_kind
from_match m = placeholder_of (find_kind all_kinds m.kind) m.token

abbrev pub parsed : Option Match → Result (Option Placeholder)
parsed none = ok none
parsed (some m) = from_match m >>= λ p. ok (some p)

unfoldable pub parse_placeholder : Text → Result (Option Placeholder)
unfolding strip full_match_of from_match
parse_placeholder chars = parsed (full_match_of (strip chars))
