-- ===== src/Redact/Registry/Fresh.antt =====
-- Minted tokens are fresh, and a usable draw is taken.
use optimaler_status.Base.{
  ℕ, zero, suc, ◌+◌, ◌<◌, ◌≡◌, refl, sym, subst, Bool, true, false, ◌&&◌, not, List, [], ◌∷◌,
  length, Bool-cases, inl, inr, ◌⊎◌, arith,
}
use optimaler_status.Python.Text.{Text}
use optimaler_status.Python.Result.{Result, ok, err, placeholder_error}
use optimaler_status.Redact.Placeholders.{Kind, Placeholder, token_length}
use optimaler_status.Redact.Registry.{
  max_draws, has_token, is_lettered, Source, Registry, is_usable, mint_loop, mint,
}

-- A minted token: twelve characters of the alphabet that were not handed out before, do not occur in
-- the source content, and are not to be avoided.
pub record IsFresh (source : Source) (avoid : Text → Bool) (issued : List Text) (token : Text)
    : Type 0 where
  pub long : length token ≡ token_length
  pub lettered : is_lettered token ≡ true
  pub unused : has_token token issued ≡ false
  pub unreserved : source.is_reserved token ≡ false
  pub not_avoided : avoid token ≡ false

usable-IsFresh :
    (source : Source) (avoid : Text → Bool) (issued : List Text) (token : Text)
    → (is_usable source issued token && not (avoid token)) ≡ true
    → IsFresh source avoid issued token
unfolding is_usable
usable-IsFresh source avoid issued token h = record {
  long = ground (arith, h);
  lettered = ground (arith, h);
  unused = ground (arith, h);
  unreserved = ground (arith, h);
  not_avoided = ground (arith, h);
}

-- What minting does: it hands out a fresh token of the kind, or raises and hands out nothing.
pub Minted : Source → (Text → Bool) → Kind → Registry → Registry × Result Placeholder → Type 0
Minted source avoid kind before after =
    ((p : Placeholder) × (after.1 ≡ ok p)
      × (p.kind ≡ kind)
      × IsFresh source avoid before.issued p.token
      × (after.0.issued ≡ p.token ∷ before.issued))
    ⊎ ((after.1 ≡ err placeholder_error) × (after.0.issued ≡ before.issued))

mint_loop-Minted :
    (draws : ℕ) (source : Source) (avoid : Text → Bool) (kind : Kind) (before : Registry)
    → Minted source avoid kind before (mint_loop draws source avoid kind before)
unfolding mint_loop Minted
mint_loop-Minted zero source avoid kind before = inr (refl, refl)
mint_loop-Minted (suc draws) source avoid kind before =
    let token = source.draw before.drawn token_length in
    elim (Bool-cases (is_usable source before.issued token && not (avoid token))) [
      | inl b ↦ rw b (
          inl (
            record { kind = kind; token = token },
            refl,
            refl,
            usable-IsFresh source avoid before.issued token b,
            refl,
          ))
      | inr b ↦
          rw b
            (mint_loop-Minted draws source avoid kind (record before { drawn = suc before.drawn }))
    ]

-- Tokens that differ from each other, have twelve characters of the alphabet, and do not occur in
-- the source content.
abbrev pub IsDistinct : Source → List Text → Type 0
IsDistinct source [] = Unit
IsDistinct source (token ∷ tokens) =
    (length token ≡ token_length)
    × (is_lettered token ≡ true)
    × (has_token token tokens ≡ false)
    × (source.is_reserved token ≡ false)
    × IsDistinct source tokens

Minted-IsDistinct :
    (source : Source) (avoid : Text → Bool) (kind : Kind) (before : Registry)
    (after : Registry × Result Placeholder)
    → IsDistinct source before.issued
    → Minted source avoid kind before after
    → IsDistinct source after.0.issued
unfolding Minted
Minted-IsDistinct source avoid kind before after h (inl m) =
    let f = m.3 in
    subst (IsDistinct source) (sym m.4) (f.long, f.lettered, f.unused, f.unreserved, h)
Minted-IsDistinct source avoid kind before after h (inr m) = subst (IsDistinct source) (sym m.1) h

-- A registry after it was asked for placeholders, each of a kind and with a test to avoid.
unfoldable pub mint_all : Source → List (Kind × (Text → Bool)) → Registry → Registry
unfolding mint
mint_all source [] registry = registry
mint_all source (asked ∷ wanted) registry =
    mint_all source wanted (mint source asked.1 asked.0 registry).0

-- Minting hands out a fresh token of the kind and remembers it, or raises PlaceholderError and hands
-- out nothing.
pub mint-Minted :
    (source : Source) (avoid : Text → Bool) (kind : Kind) (before : Registry)
    → Minted source avoid kind before (mint source avoid kind before)
unfolding mint
mint-Minted source avoid kind before = mint_loop-Minted max_draws source avoid kind before

-- From a registry whose tokens differ from each other, have twelve characters of the alphabet and do
-- not occur in the source content, this stays so through any requests, those that raise included.
pub mint_all-IsDistinct :
    (source : Source) (wanted : List (Kind × (Text → Bool))) (registry : Registry)
    → IsDistinct source registry.issued
    → IsDistinct source (mint_all source wanted registry).issued
unfolding mint_all
mint_all-IsDistinct source [] registry h = h
mint_all-IsDistinct source (asked ∷ wanted) registry h =
    let after = mint source asked.1 asked.0 registry in
    mint_all-IsDistinct source wanted after.0 (
      Minted-IsDistinct source asked.1 asked.0 registry after h
        (mint-Minted source asked.1 asked.0 registry))

mint_loop_live :
    (draws : ℕ) (source : Source) (avoid : Text → Bool) (kind : Kind) (before : Registry) (n : ℕ)
    → n < draws
    → is_usable source before.issued (source.draw (before.drawn + n) token_length) ≡ true
    → avoid (source.draw (before.drawn + n) token_length) ≡ false
    → (p : Placeholder) × ((mint_loop draws source avoid kind before).1 ≡ ok p)
unfolding mint_loop
mint_loop_live zero source avoid kind before n h usable free = absurd (omega (arith, h))
mint_loop_live (suc draws) source avoid kind before zero h usable free =
    let same : before.drawn + 0 ≡ before.drawn = omega arith in
    let was =
      subst (λ k. is_usable source before.issued (source.draw k token_length) ≡ true) same usable in
    let clear = subst (λ k. avoid (source.draw k token_length) ≡ false) same free in
    rw (was, clear) (record { kind = kind; token = source.draw before.drawn token_length }, refl)
mint_loop_live (suc draws) source avoid kind before (suc n) h usable free =
    let same : before.drawn + suc n ≡ suc before.drawn + n = omega arith in
    let token = source.draw before.drawn token_length in
    let later =
      mint_loop_live draws source avoid kind (record before { drawn = suc before.drawn }) n
        (omega (arith, h))
        (subst (λ k. is_usable source before.issued (source.draw k token_length) ≡ true) same
          usable)
        (subst (λ k. avoid (source.draw k token_length) ≡ false) same free) in
    elim (Bool-cases (is_usable source before.issued token && not (avoid token))) [
      | inl b ↦ rw b (record { kind = kind; token = token }, refl)
      | inr b ↦ rw b later
    ]

-- Minting hands out a placeholder where one of the next 64 draws of the source is usable and not to be
-- avoided.
pub mint_live :
    (source : Source) (avoid : Text → Bool) (kind : Kind) (before : Registry) (n : ℕ)
    → n < max_draws
    → is_usable source before.issued (source.draw (before.drawn + n) token_length) ≡ true
    → avoid (source.draw (before.drawn + n) token_length) ≡ false
    → (p : Placeholder) × ((mint source avoid kind before).1 ≡ ok p)
unfolding mint
mint_live source avoid kind before n h usable free =
    mint_loop_live max_draws source avoid kind before n h usable free
