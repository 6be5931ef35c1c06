-- ===== src/Base/Members.antt =====
-- The members of a filtered and of a sorted list.
use mathlib.Core.Path.{◌≡◌, refl, sym, ◌∙◌, ap, subst}
use mathlib.Core.Bool.{Bool, true}
use mathlib.Core.Logic.{◌⊎◌, inl, inr}
use mathlib.Core.List.{List, [], ◌∷◌, Memᴰ}
use mathlib.Core.List.Memᴰ
use optimaler_status.Base.Tests.{Bool-cases}
use optimaler_status.Base.Lists.{keep}
use optimaler_status.Base.Sorting.{insert, sorted}

pub Memᴰ-keep :
    {A : Type 0} (test : A → Bool) (xs : List A) {x : A}
    → Memᴰ x (keep test xs)
    → Memᴰ x xs × (test x ≡ true)
unfolding keep
Memᴰ-keep test [] m = absurd (Memᴰ.not-nil m)
Memᴰ-keep test (y ∷ xs) {x} m = elim (Bool-cases (test y)) [
  | inl b ↦ elim (Memᴰ.cases_cons (subst (λ l. Memᴰ x l) (rw b refl) m)) [
    | inl e ↦ (Memᴰ.head e, ap test e ∙ b)
    | inr later ↦ let rest = Memᴰ-keep test xs later in (Memᴰ.tail rest.0, rest.1)
  ]
  | inr b ↦
      let rest = Memᴰ-keep test xs (subst (λ l. Memᴰ x l) (rw b refl) m) in
      (Memᴰ.tail rest.0, rest.1)
]

pub keep-Memᴰ :
    {A : Type 0} (test : A → Bool) (xs : List A) {x : A}
    → Memᴰ x xs
    → test x ≡ true
    → Memᴰ x (keep test xs)
unfolding keep
keep-Memᴰ test [] m h = absurd (Memᴰ.not-nil m)
keep-Memᴰ test (y ∷ xs) {x} m h = elim (Memᴰ.cases_cons m) [
  | inl e ↦ let passes : test y ≡ true = sym (ap test e) ∙ h in rw passes (Memᴰ.head e)
  | inr later ↦ elim (Bool-cases (test y)) [
    | inl b ↦ rw b (Memᴰ.tail (keep-Memᴰ test xs later h))
    | inr b ↦ rw b (keep-Memᴰ test xs later h)
  ]
]

module _ {A : Type 0} (le : A → A → Bool) where
  insert_head : (x : A) (ys : List A) → Memᴰ x (insert le x ys)
  unfolding insert
  insert_head x [] = Memᴰ.head refl
  insert_head x (y ∷ ys) = elim (Bool-cases (le x y)) [
    | inl b ↦ rw b (Memᴰ.head refl)
    | inr b ↦ rw b (Memᴰ.tail (insert_head x ys))
  ]

  insert_tail : (x z : A) (ys : List A) → Memᴰ z ys → Memᴰ z (insert le x ys)
  unfolding insert
  insert_tail x z [] m = absurd (Memᴰ.not-nil m)
  insert_tail x z (y ∷ ys) m = elim (Bool-cases (le x y)) [
    | inl b ↦ rw b (Memᴰ.tail m)
    | inr b ↦ rw b (elim (Memᴰ.cases_cons m) [
      | inl e ↦ Memᴰ.head e
      | inr later ↦ Memᴰ.tail (insert_tail x z ys later)
    ])
  ]

  pub sorted-Memᴰ : (xs : List A) {x : A} → Memᴰ x xs → Memᴰ x (sorted le xs)
  unfolding sorted
  sorted-Memᴰ [] m = absurd (Memᴰ.not-nil m)
  sorted-Memᴰ (y ∷ xs) {x} m = elim (Memᴰ.cases_cons m) [
    | inl e ↦
        subst (λ z. Memᴰ z (insert le y (sorted le xs))) (sym e) (insert_head y (sorted le xs))
    | inr later ↦ insert_tail y x (sorted le xs) (sorted-Memᴰ xs later)
  ]

  insert-Memᴰ : (x z : A) (ys : List A) → Memᴰ z (insert le x ys) → (z ≡ x) ⊎ Memᴰ z ys
  unfolding insert
  insert-Memᴰ x z [] m = Memᴰ.cases_cons m
  insert-Memᴰ x z (y ∷ ys) m = elim (Bool-cases (le x y)) [
    | inl b ↦ Memᴰ.cases_cons (subst (λ l. Memᴰ z l) (rw b refl) m)
    | inr b ↦ elim (Memᴰ.cases_cons (subst (λ l. Memᴰ z l) (rw b refl) m)) [
      | inl e ↦ inr (Memᴰ.head e)
      | inr later ↦ elim (insert-Memᴰ x z ys later) [
        | inl e ↦ inl e
        | inr found ↦ inr (Memᴰ.tail found)
      ]
    ]
  ]

  pub Memᴰ-sorted : (xs : List A) {x : A} → Memᴰ x (sorted le xs) → Memᴰ x xs
  unfolding sorted
  Memᴰ-sorted [] m = absurd (Memᴰ.not-nil m)
  Memᴰ-sorted (y ∷ xs) {x} m = elim (insert-Memᴰ y x (sorted le xs) m) [
    | inl e ↦ Memᴰ.head e
    | inr later ↦ Memᴰ.tail (Memᴰ-sorted xs later)
  ]
