-- ===== src/Python/Result.antt =====
-- Exceptions as values: a call returns, or raises an exception of one of the classes below.
use optimaler_status.Base.{ap, sym, ◌≡◌, refl, Bool, true, false, ◌⊎◌, inl, inr}

-- The exception classes that the modelled code raises or catches.
pub data Error : Type 0 where
  overflow_error value_error predicate_error sequence_conflict_error duplicate_event_error
        placeholder_error review_action_error :
      Error

pub data Result {ℓ} (A : Type ℓ) : Type ℓ where
  err : Error → Result A
  ok : A → Result A

-- `if not test: raise e`
abbrev pub require : Bool → Error → Result (Unit {0})
require false e = err e
require true e = ok tt

infixl 6 ◌>>=◌
abbrev pub ◌>>=◌ {ℓ κ} : {A : Type ℓ} {B : Type κ} → Result A → (A → Result B) → Result B
err e >>= rest = err e
ok a >>= rest = rest a

infixl 6 ◌>>◌
abbrev pub ◌>>◌ {κ} : {B : Type κ} → Result (Unit {0}) → Result B → Result B
checked >> rest = checked >>= λ _. rest

pub Result-cases {ℓ} :
    {A : Type ℓ} (r : Result A) → ((a : A) × (r ≡ ok a)) ⊎ ((e : Error) × (r ≡ err e))
Result-cases (ok a) = inl (a, refl)
Result-cases (err e) = inr (e, refl)

abbrev value_or {ℓ} : {A : Type ℓ} → A → Result A → A
value_or a (ok b) = b
value_or a (err e) = a

pub ok_injective {ℓ} : {A : Type ℓ} {a b : A} → ok a ≡ ok b → a ≡ b
ok_injective {a = a} h = ap (value_or a) h

-- What a chain of calls returned, its first call returned too.
pub bind-ok {ℓ κ} :
    {A : Type ℓ} {B : Type κ} (first : Result A) (rest : A → Result B) {b : B}
    → (first >>= rest) ≡ ok b
    → (a : A) × (first ≡ ok a) × (rest a ≡ ok b)
bind-ok (err e) rest h = cc
bind-ok (ok a) rest h = (a, refl, h)

pub require-both :
    (a b : Bool) (e f : Error)
    → ◌≡◌ {A = Result (Unit {0})} (require a e >> require b f) (ok tt)
    → (a ≡ true) × (b ≡ true)
require-both true true e f h = (refl, refl)
require-both true false e f h = absurd (cc h)
require-both false b e f h = absurd (cc h)

abbrev error_or {ℓ} : {A : Type ℓ} → Error → Result A → Error
error_or d (ok a) = d
error_or d (err e) = e

-- Which of two guards raised, if one did.
pub require-raised :
    (a b : Bool) (e f why : Error)
    → ◌≡◌ {A = Result (Unit {0})} (require a e >> require b f) (err why)
    → ((why ≡ e) × (a ≡ false)) ⊎ ((why ≡ f) × (a ≡ true) × (b ≡ false))
require-raised true true e f why h = absurd (cc h)
require-raised true false e f why h = inr (sym (ap (error_or e) h), refl, refl)
require-raised false b e f why h = inl (sym (ap (error_or f) h), refl)
