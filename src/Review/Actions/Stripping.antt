-- ===== src/Review/Actions/Stripping.antt =====
-- About strings that were stripped.
use Prim.Native.Char.{Char, code}
use optimaler_status.Base.{
  ◌≡◌, refl, sym, Bool, true, false, not, String, Bool-cases, inl, inr, arith, subst,
}
use optimaler_status.Python.Text.{is_space}
use optimaler_status.Review.Actions.{
  left_strip, before_stripped, right_strip, strip, is_filled, default_reason, reason_or_default,
}

abbrev starts : String → Bool
starts String.[] = false
starts (String.◌∷◌ c s) = not (is_space (code c))

starts-left_strip : (s : String) → is_filled (left_strip s) ≡ true → starts (left_strip s) ≡ true
unfolding left_strip
starts-left_strip String.[] h = absurd (cc h)
starts-left_strip (String.◌∷◌ c s) h = elim (Bool-cases (is_space (code c))) [
  | inl b ↦ rw b (starts-left_strip s (ground (arith, h, b)))
  | inr b ↦ rw b (rw b refl)
]

starts-before_stripped :
    (c : Char) (s : String) → is_space (code c) ≡ false → starts (before_stripped c s) ≡ true
starts-before_stripped c String.[] h = rw h (rw h refl)
starts-before_stripped c (String.◌∷◌ d s) h = rw h refl

starts-right_strip : (s : String) → starts s ≡ true → starts (right_strip s) ≡ true
unfolding right_strip
starts-right_strip String.[] h = absurd (cc h)
starts-right_strip (String.◌∷◌ c s) h = starts-before_stripped c (right_strip s) (ground (arith, h))

left_strip_same : (s : String) → starts s ≡ true → left_strip s ≡ s
unfolding left_strip
left_strip_same String.[] h = refl
left_strip_same (String.◌∷◌ c s) h =
    let plain : is_space (code c) ≡ false = ground (arith, h) in rw plain refl

starts_filled : (s : String) → starts s ≡ true → is_filled s ≡ true
starts_filled String.[] h = h
starts_filled (String.◌∷◌ c s) h = refl

right_strip_filled : (s : String) → is_filled (right_strip s) ≡ true → is_filled s ≡ true
unfolding right_strip
right_strip_filled String.[] h = h
right_strip_filled (String.◌∷◌ c s) h = refl

strip_filled : (s : String) → is_filled (strip s) ≡ true → is_filled (strip (strip s)) ≡ true
unfolding strip
strip_filled s h =
    let start =
      starts-right_strip (left_strip s)
        (starts-left_strip s (right_strip_filled (left_strip s) h)) in
    let again : starts (right_strip (left_strip (strip s))) ≡ true =
      subst (λ t. starts (right_strip t) ≡ true) (sym (left_strip_same (strip s) start))
        (starts-right_strip (strip s) start) in
    starts_filled (right_strip (left_strip (strip s))) again

default_filled : is_filled (strip default_reason) ≡ true
unfolding strip is_space
default_filled = refl

-- There is always a reason for an escalation.
pub reason_or_default_filled :
    (reason : String) → is_filled (strip (reason_or_default reason)) ≡ true
reason_or_default_filled reason = elim (Bool-cases (is_filled (strip reason))) [
  | inl b ↦ rw b (strip_filled reason b)
  | inr b ↦ rw b default_filled
]
