-- ===== src/Base/Sorting.antt =====
-- Python's stable `sorted` by a key, as an insertion sort over the test "key(a) <= key(b)".
use mathlib.Core.Path.{◌≡◌, refl, ◌∙◌, subst, subst₂, ap₂}
use mathlib.Core.Bool.{Bool, true, false, not}
use mathlib.Core.Logic.{inl, inr, ◌≢◌}
use mathlib.Core.List.{List, [], ◌∷◌, Permᴰ}
use native.Mathlib.Omega.{arith}
use optimaler_status.Base.Tests.{if◌then◌else◌, Bool-cases}
use optimaler_status.Base.Lists.{All}

module _ {A : Type 0} (le : A → A → Bool) where
  unfoldable pub insert : A → List A → List A
  insert x [] = x ∷ []
  insert x (y ∷ ys) = let rest = insert x ys in if le x y then x ∷ y ∷ ys else y ∷ rest

  unfoldable pub sorted : List A → List A
  unfolding insert
  sorted [] = []
  sorted (x ∷ xs) = insert x (sorted xs)

-- The key is compared by a total, transitive order.
pub record IsOrder {A : Type 0} (le : A → A → Bool) : Type 0 where
  pub total : (x y : A) → le x y ≡ false → le y x ≡ true
  pub trans : (x y z : A) → le x y ≡ true → le y z ≡ true → le x z ≡ true

module _ {A : Type 0} (le : A → A → Bool) where
  -- Different keys: one is before the other, and not the other way round.
  abbrev pub Apart : A → A → Type 0
  Apart x y = (le x y ≡ not (le y x)) × (le y x ≡ not (le x y))

  abbrev pub Distinct : List A → Type 0
  Distinct [] = Unit
  Distinct (x ∷ xs) = All (Apart x) xs × Distinct xs

  All-perm : (x : A) {xs ys : List A} → Permᴰ xs ys → All (Apart x) xs → All (Apart x) ys
  All-perm x Permᴰ.nil h = tt
  All-perm x (Permᴰ.cons e p) h = (subst (Apart x) e h.0, All-perm x p h.1)
  All-perm x (Permᴰ.swap e f) h = (subst (Apart x) f h.1.0, (subst (Apart x) e h.0, h.1.1))
  All-perm x (Permᴰ.trans p q) h = All-perm x q (All-perm x p h)

  Distinct-perm : {xs ys : List A} → Permᴰ xs ys → Distinct xs → Distinct ys
  Distinct-perm Permᴰ.nil h = tt
  Distinct-perm (Permᴰ.cons {l₂ = ys} e p) h =
      (subst (λ b. All (Apart b) ys) e (All-perm _ p h.0), Distinct-perm p h.1)
  Distinct-perm (Permᴰ.swap {l = l} e f) h = (
    (subst₂ Apart f e (h.0.0.1, h.0.0.0), subst (λ b. All (Apart b) l) f h.1.0),
    (subst (λ b. All (Apart b) l) e h.0.1, h.1.1),
  )
  Distinct-perm (Permᴰ.trans p q) h = Distinct-perm q (Distinct-perm p h)

module _ {A : Type 0} (le : A → A → Bool) (o : IsOrder le) where
  insert_comm :
      (x y : A) (zs : List A)
      → Apart le x y
      → insert le x (insert le y zs) ≡ insert le y (insert le x zs)
  unfolding insert
  insert_comm x y [] h = ground (arith, o.total x y, o.total y x)
  insert_comm x y (z ∷ zs) h =
      ground (arith, o.total x y, o.total y x, o.trans x y z, o.trans y x z, insert_comm x y zs h)

  -- Where no two elements have the same key, their order does not matter.
  pub sorted-perm : {xs ys : List A} → Permᴰ xs ys → Distinct le xs → sorted le xs ≡ sorted le ys
  unfolding sorted
  sorted-perm Permᴰ.nil h = refl
  sorted-perm (Permᴰ.cons e p) h = ap₂ (insert le) e (sorted-perm p h.1)
  sorted-perm (Permᴰ.swap {a = a} {b = b} {l = l} e f) h =
      insert_comm a b (sorted le l) h.0.0 ∙ ap₂ (λ x y. insert le x (insert le y (sorted le l))) f e
  sorted-perm (Permᴰ.trans p q) h = sorted-perm p h ∙ sorted-perm q (Distinct-perm le p h)

  insert_before : (x y : A) (ys : List A) → le x y ≡ true → insert le x (y ∷ ys) ≡ x ∷ y ∷ ys
  unfolding insert
  insert_before x y ys h = rw h refl

  insert_after :
      (x y : A) (ys : List A) → le x y ≡ false → insert le x (y ∷ ys) ≡ y ∷ insert le x ys
  unfolding insert
  insert_after x y ys h = rw h refl

  insert_nonempty : (x : A) (ys : List A) → insert le x ys ≢ []
  unfolding insert
  insert_nonempty x [] h = cc h
  insert_nonempty x (y ∷ ys) h = elim (Bool-cases (le x y)) [
    | inl p ↦ cc (insert_before x y ys p, h)
    | inr p ↦ cc (insert_after x y ys p, h)
  ]

  sorted-nil : (xs : List A) → sorted le xs ≡ [] → xs ≡ []
  unfolding sorted
  sorted-nil [] h = refl
  sorted-nil (x ∷ xs) h = absurd (insert_nonempty x (sorted le xs) h)

  le_refl : (x : A) → le x x ≡ true
  le_refl x = ground (arith, o.total x x)

  All-trans :
      (x y : A) (zs : List A)
      → le x y ≡ true
      → All (λ (z : A). le y z ≡ true) zs
      → All (λ (z : A). le x z ≡ true) zs
  All-trans x y [] h k = tt
  All-trans x y (z ∷ zs) h k = (o.trans x y z h k.0, All-trans x y zs h k.1)

  -- The first of a sorted list comes before every element.
  pub sorted_first :
      (xs : List A) {w : A} {rest : List A}
      → sorted le xs ≡ w ∷ rest
      → All (λ (x : A). le w x ≡ true) xs
  unfolding sorted insert
  sorted_first [] h = tt
  sorted_first (x ∷ xs) {w} {rest} h = go (sorted le xs) refl (λ y ys e. sorted_first xs e) h
    where
      Before : A → Type 0
      Before z = All (λ (a : A). le z a ≡ true) (x ∷ xs)

      go :
          (ys : List A)
          → sorted le xs ≡ ys
          → ((z : A) (zs : List A) → sorted le xs ≡ z ∷ zs → All (λ (a : A). le z a ≡ true) xs)
          → insert le x ys ≡ w ∷ rest
          → Before w
      go [] e ih k = rw (sorted-nil xs e) (cc (le_refl x, k), tt)
      go (y ∷ ys) e ih k = elim (Bool-cases (le x y)) [
        | inl p ↦
            let same : x ≡ w = cc (insert_before x y ys p, k) in
            subst Before same (le_refl x, All-trans x y xs p (ih y ys e))
        | inr p ↦
            let same : y ≡ w = cc (insert_after x y ys p, k) in
            subst Before same (o.total x y p, ih y ys e)
      ]
