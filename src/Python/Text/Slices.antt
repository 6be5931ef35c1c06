-- ===== src/Python/Text/Slices.antt =====
-- Slices of a text put together again, and equality of texts.
use optimaler_status.Base.{
  ℕ, zero, suc, ◌-◌, ◌≤◌, ◌≡◌, refl, ap, ap₂, true, [], ◌∷◌, ◌++◌, length, arith,
}
use optimaler_status.Python.Text.{Text, take, drop, text_eq}

pub length-drop : (n : ℕ) (text : Text) → length (drop n text) ≡ length text - n
unfolding drop
length-drop zero text = omega arith
length-drop (suc n) [] = omega arith
length-drop (suc n) (c ∷ text) = omega (arith, length-drop n text)

pub take-drop : (n : ℕ) (text : Text) → take n text ++ drop n text ≡ text
unfolding take drop
take-drop zero text = refl
take-drop (suc n) [] = refl
take-drop (suc n) (c ∷ text) = ap (λ t. c ∷ t) (take-drop n text)

pub length-take : (n : ℕ) (text : Text) → n ≤ length text → length (take n text) ≡ n
unfolding take
length-take zero text h = refl
length-take (suc n) [] h = absurd (omega (arith, h))
length-take (suc n) (c ∷ text) h = omega (arith, length-take n text (omega (arith, h)))

pub text_eq_sound : (a b : Text) → text_eq a b ≡ true → a ≡ b
unfolding text_eq
text_eq_sound [] [] h = refl
text_eq_sound [] (d ∷ b) h = absurd (cc h)
text_eq_sound (c ∷ a) [] h = absurd (cc h)
text_eq_sound (c ∷ a) (d ∷ b) h =
    let same : c ≡ d = ground (arith, h) in
    let rest : text_eq a b ≡ true = ground (arith, h) in
    ap₂ (λ x l. x ∷ l) same (text_eq_sound a b rest)
