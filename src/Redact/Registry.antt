-- ===== src/Redact/Registry.antt =====
-- engine/redact/placeholders.py: PlaceholderRegistry, which mints the tokens of a case.
pub mod Fresh
use optimaler_status.Base.{
  ℕ, zero, suc, ◌+◌, Bool, true, false, ◌&&◌, ◌||◌, not, Option, none, some, String, List, [], ◌∷◌,
  ◌++◌, length, ◌==◌, if◌then◌else◌,
}
use optimaler_status.Base.TextOrder.{codes}
use optimaler_status.Python.Text.{Text, text_eq}
use optimaler_status.Python.Result.{Result, ok, err, placeholder_error}
use optimaler_status.Redact.Placeholders.{Kind, Placeholder, token_length, is_token_char}

abbrev pub max_draws : ℕ
max_draws = 64

abbrev pub vault_ref_length : ℕ
vault_ref_length = 26

abbrev pub vault_ref_prefix : Text
vault_ref_prefix = codes "vault-"

-- token in a set of tokens
unfoldable pub has_token : Text → List Text → Bool
unfolding text_eq
has_token token [] = false
has_token token (other ∷ tokens) = text_eq token other || has_token token tokens

-- set(token) <= set(ALPHABET)
unfoldable pub is_lettered : Text → Bool
unfolding is_token_char
is_lettered [] = true
is_lettered (c ∷ token) = is_token_char c && is_lettered token

-- What a registry is made with: the n-th token that the source draws, of a length, and whether a
-- token occurs in the source content.
pub record Source : Type 0 where
  pub draw : ℕ → ℕ → Text
  pub is_reserved : Text → Bool

-- The tokens that were handed out, and how many draws the source has made.
pub record Registry : Type 0 where
  pub issued : List Text
  pub drawn : ℕ

-- _usable
unfoldable pub is_usable : Source → List Text → Text → Bool
unfolding is_lettered has_token
is_usable source issued token =
    (length token == token_length)
    && (is_lettered token && (not (has_token token issued) && not (source.is_reserved token)))

-- The loop of mint; `avoid` is a test, and `λ token. false` where there is none.
unfoldable pub mint_loop :
    ℕ → Source → (Text → Bool) → Kind → Registry → Registry × Result Placeholder
unfolding is_usable
mint_loop zero source avoid kind registry = (registry, err placeholder_error)
mint_loop (suc draws) source avoid kind registry =
    let token = source.draw registry.drawn token_length in
    let next = suc registry.drawn in
    let later = mint_loop draws source avoid kind (record registry { drawn = next }) in
    if is_usable source registry.issued token && not (avoid token)
    then (
      record { issued = token ∷ registry.issued; drawn = next },
      ok (record { kind = kind; token = token }),
    )
    else later

unfoldable pub mint : Source → (Text → Bool) → Kind → Registry → Registry × Result Placeholder
unfolding mint_loop
mint source avoid kind registry = mint_loop max_draws source avoid kind registry

-- The loop of vault_ref.
unfoldable pub vault_ref_loop : ℕ → Source → Registry → Registry × Result Text
unfolding is_lettered
vault_ref_loop zero source registry = (registry, err placeholder_error)
vault_ref_loop (suc draws) source registry =
    let token = source.draw registry.drawn vault_ref_length in
    let next = record registry { drawn = suc registry.drawn } in
    let later = vault_ref_loop draws source next in
    if (length token == vault_ref_length) && is_lettered token
    then (next, ok (vault_ref_prefix ++ token))
    else later

unfoldable pub vault_ref : Source → Registry → Registry × Result Text
unfolding vault_ref_loop
vault_ref source registry = vault_ref_loop max_draws source registry
