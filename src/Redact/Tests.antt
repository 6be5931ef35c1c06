-- ===== src/Redact/Tests.antt =====
-- Runs of the placeholders, and their theorems at inputs that meet their hypotheses.
use optimaler_status.Base.{
  ◌≡◌, refl, true, false, none, some, [], ◌∷◌, All, arith, if◌then◌else◌, ◌==◌,
}
use optimaler_status.Base.TextOrder.{codes}
use optimaler_status.Python.Text.{Text, is_space, text_eq}
use optimaler_status.Python.Result.{ok, err, placeholder_error}
use optimaler_status.Redact.Placeholders.{
  Kind, Placeholder, written, format_placeholder, is_token_char, all_kinds, find_kind,
  parse_placeholder,
}
use optimaler_status.Redact.Placeholders.RoundTrip.{
  parse_placeholder-format_placeholder, parse_placeholder-unknown,
}
use optimaler_status.Redact.Registry.{Source, Registry, is_usable, mint}
use optimaler_status.Redact.Registry.Fresh.{mint_all, IsDistinct, mint_all-IsDistinct, mint_live}
use optimaler_status.Redact.Witness.{resolve}

abbrev sample_token : Text
sample_token = codes "BCDFGHJKMNPQ"

formatted : format_placeholder Kind.vsnr sample_token ≡ codes "[[PII|VSNR|BCDFGHJKMNPQ]]"
unfolding format_placeholder
formatted = refl

-- A token with a vowel is no token.
vowel_token : parse_placeholder (codes "[[PII|VSNR|ACDFGHJKMNPQ]]") ≡ ok none
unfolding parse_placeholder is_space
vowel_token = refl

surrounded :
    parse_placeholder (codes " [[PII|TEL|BCDFGHJKMNPQ]] ")
    ≡ ok (some (record { kind = Kind.tel; token = sample_token }))
unfolding parse_placeholder is_space
surrounded = refl

sample_letters : All (λ c. is_token_char c ≡ true) sample_token
unfolding is_token_char
sample_letters = (
  refl,
  (refl, (refl, (refl, (refl, (refl, (refl, (refl, (refl, (refl, (refl, (refl, tt))))))))))),
)

parse_placeholder-format_placeholder_example :
    parse_placeholder (format_placeholder Kind.vsnr sample_token)
    ≡ ok (some (record { kind = Kind.vsnr; token = sample_token }))
parse_placeholder-format_placeholder_example =
    parse_placeholder-format_placeholder Kind.vsnr sample_token refl sample_letters

no_kind : find_kind all_kinds (codes "XYZ") ≡ none
unfolding find_kind
no_kind = refl

parse_placeholder-unknown_example :
    parse_placeholder (written (codes "XYZ") sample_token []) ≡ err placeholder_error
parse_placeholder-unknown_example =
    parse_placeholder-unknown (codes "XYZ") sample_token refl (refl, (refl, (refl, tt))) no_kind
      refl sample_letters

resolved :
    resolve
      ((codes "[[PII|TEL|BCDFGHJKMNPQ]]", codes "030 1") ∷ [])
      (codes "[[PII|TEL|BCDFGHJKMNPQ]] ")
    ≡ some (codes "030 1")
unfolding resolve is_space
resolved = refl

-- The first draw occurs in the source content; the source repeats the second one.
abbrev source : Source
source = record {
  draw = λ n long.
      if n == 0
      then codes "ZZZZZZZZZZZZ"
      else if n == 3
      then codes "999999999999"
      else sample_token;
  is_reserved = λ token. text_eq token (codes "ZZZZZZZZZZZZ");
}

abbrev fresh_registry : Registry
fresh_registry = record { issued = []; drawn = 0 }

minted_twice :
    (mint_all source ((Kind.name, λ t. false) ∷ (Kind.tel, λ t. false) ∷ []) fresh_registry).issued
    ≡ codes "999999999999" ∷ sample_token ∷ []
unfolding mint_all
minted_twice = refl

mint_all-IsDistinct_example :
    IsDistinct source
      (mint_all source
        ((Kind.name, λ t. false) ∷ (Kind.tel, λ t. false) ∷ [])
        fresh_registry).issued
mint_all-IsDistinct_example =
    mint_all-IsDistinct source ((Kind.name, λ t. false) ∷ (Kind.tel, λ t. false) ∷ [])
      fresh_registry tt

usable_draw : is_usable source [] (source.draw 1 12) ≡ true
unfolding is_usable
usable_draw = refl

mint_live_example :
    (p : Placeholder) × ((mint source (λ t. false) Kind.name fresh_registry).1 ≡ ok p)
mint_live_example =
    mint_live source (λ t. false) Kind.name fresh_registry 1 (omega arith) usable_draw refl
