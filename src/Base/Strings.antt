-- ===== src/Base/Strings.antt =====
-- Lists of strings as sets: membership, lists without a string twice, and counts.
use Prim.Native.Nat.{ℕ, suc, ◌≤◌}
use Prim.Native.String.{String}
use mathlib.Core.Path.{◌≡◌, refl, subst}
use mathlib.Core.Logic.{inl, inr}
use mathlib.Core.Bool.{Bool, false, ◌||◌}
use mathlib.Core.List.{List, [], ◌∷◌, ◌++◌}
use text.Mathlib.Text.{◌==◌ as str_eq}
use text.Mathlib.TextEquality.{eq_iff}
use native.Mathlib.Omega.{arith}
use optimaler_status.Base.Tests.{if◌then◌else◌, Bool-cases}
use optimaler_status.Base.Lists.{length, All}

-- x in xs
unfoldable pub is_member : String → List String → Bool
is_member x [] = false
is_member x (y ∷ ys) = str_eq x y || is_member x ys

-- No string stands in the list twice.
abbrev pub IsUnique : List String → Type 0
IsUnique [] = Unit
IsUnique (x ∷ xs) = (is_member x xs ≡ false) × IsUnique xs

pub is_member-append :
    (x : String) (xs ys : List String) → is_member x (xs ++ ys) ≡ is_member x xs || is_member x ys
unfolding is_member
is_member-append x [] ys = refl
is_member-append x (y ∷ xs) ys = ground (arith, is_member-append x xs ys)

-- How many strings of a list stand in another one.
unfoldable pub hits : List String → List String → ℕ
unfolding is_member
hits [] ys = 0
hits (x ∷ xs) ys = let rest = hits xs ys in if is_member x ys then suc rest else rest

hits-absent :
    (xs : List String) (y : String) (ys : List String)
    → is_member y xs ≡ false
    → hits xs (y ∷ ys) ≡ hits xs ys
unfolding hits
hits-absent [] y ys h = refl
hits-absent (x ∷ xs) y ys h =
    let rest : is_member y xs ≡ false = ground (arith, h) in
    ground (arith, h, eq_iff x y, eq_iff y x, hits-absent xs y ys rest)

hits-suc :
    (xs : List String) (y : String) (ys : List String)
    → IsUnique xs
    → hits xs (y ∷ ys) ≤ suc (hits xs ys)
unfolding hits
hits-suc [] y ys h = omega arith
hits-suc (x ∷ xs) y ys h = elim (Bool-cases (str_eq x y)) [
  | inl b ↦
      let same = (eq_iff x y).0 b in
      let absent = hits-absent xs y ys (subst (λ z. is_member z xs ≡ false) same h.0) in
      ground (arith, b, absent)
  | inr b ↦ ground (arith, b, hits-suc xs y ys h.1)
]

hits-nil : (xs : List String) → hits xs [] ≡ 0
unfolding hits
hits-nil [] = refl
hits-nil (x ∷ xs) = hits-nil xs

-- A list without a string twice has at most as many strings in another list as that one is long.
pub hits-le : (xs ys : List String) → IsUnique xs → hits xs ys ≤ length ys
hits-le xs [] h = omega (arith, hits-nil xs)
hits-le xs (y ∷ ys) h = omega (arith, hits-suc xs y ys h, hits-le xs ys h)

pub is_member-absent :
    (f : String) (taken fields : List String)
    → All (λ g. is_member g (f ∷ taken) ≡ false) fields
    → (is_member f fields ≡ false) × All (λ g. is_member g taken ≡ false) fields
unfolding is_member
is_member-absent f taken [] h = (refl, tt)
is_member-absent f taken (g ∷ fields) h =
    let rest = is_member-absent f taken fields h.1 in
    (ground (arith, h.0, rest.0, eq_iff f g, eq_iff g f), (ground (arith, h.0), rest.1))

pub IsUnique-append :
    (xs ys : List String)
    → IsUnique xs
    → IsUnique ys
    → All (λ y. is_member y xs ≡ false) ys
    → IsUnique (xs ++ ys)
unfolding is_member
IsUnique-append [] ys h k free = k
IsUnique-append (x ∷ xs) ys h k free =
    let (absent, rest) = is_member-absent x xs ys free in
    (ground (arith, h.0, absent, is_member-append x xs ys), IsUnique-append xs ys h.1 k rest)
