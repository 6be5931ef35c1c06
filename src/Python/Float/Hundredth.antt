-- ===== src/Python/Float/Hundredth.antt =====
-- x / 100.0.
use native.Mathlib.Nat.{
  div-add-mod, mod-lt, mul-le-mul_left, mul-le-mul_right, le_of_mul-le-mul_left, one-le-pow,
  div-lt_iff_lt-mul, two-pow-succ,
}
use optimaler_status.Base.{
  ℕ, zero, suc, ◌+◌, ◌-◌, ◌*◌, ◌/◌, ◌%◌, ◌^◌, ◌<◌, ◌≤◌, ◌≡◌, refl, sym, true, ◌||◌, ◌&&◌, ltb, ◌==◌,
  if◌then◌else◌, arith, Bool-cases, inl, inr, subst,
}
use optimaler_status.Base.Int.{pos, negsuc}
use optimaler_status.Python.Float.{
  Float, nan, neg_inf, pos_inf, finite, bit_length, le, lt, eq, one,
}

-- A quotient with this remainder by k, to the nearest whole number, ties to even.
abbrev pub nearest : ℕ → ℕ → ℕ → ℕ
nearest k q r = if ltb k (2 * r) || ((2 * r == k) && (q % 2 == 1)) then q + 1 else q

-- n / 100 as a multiple of 2 ^ e.
unfoldable pub hundredth_at : ℕ → ℕ → ℕ
hundredth_at e n = let unit = 100 * 2 ^ e in nearest unit (n / unit) (n % unit) * 2 ^ e

-- n / 100 to 53 significant bits, ties to even, for the multiple n of 2^-1074.
unfoldable pub round_hundredth : ℕ → ℕ
unfolding bit_length hundredth_at
round_hundredth n = hundredth_at (bit_length 2200 (n / 100) - 53) n

unfoldable pub hundredth : Float → Float
unfolding round_hundredth
hundredth (finite (pos n)) = finite (pos (round_hundredth n))
hundredth (finite (negsuc n)) = elim (round_hundredth (suc n)) [
  | zero ↦ finite (pos 0)
  | suc m ↦ finite (negsuc m)
]
hundredth x = x

nearest-le : (k q r n m : ℕ) → 0 < k → k * q + r ≡ n → r < k → n ≤ k * m → nearest k q r ≤ m
nearest-le k q r n m positive whole small most = elim (Bool-cases (ltb q m)) [
  | inl below ↦ ground (arith, below)
  | inr above ↦
      let reach : m ≤ q = ground (arith, above) in
      let least = mul-le-mul_left k reach in
      let nothing : r ≡ 0 = omega (arith, whole, most, least) in
      let under : k * q ≤ k * m = omega (arith, whole, most) in
      let bound : q ≤ m = le_of_mul-le-mul_left under positive in
      ground (arith, nothing, bound, positive)
]

power_positive : (e : ℕ) → 0 < 2 ^ e
power_positive e = omega (arith, one-le-pow e 2 (omega arith))

power-add : (e d : ℕ) → 2 ^ e * 2 ^ d ≡ 2 ^ (e + d)
power-add zero d = let shift : 0 + d ≡ d = omega arith in rw shift (omega arith)
power-add (suc e) d =
    let shift : suc e + d ≡ suc (e + d) = omega arith in
    rw (shift, two-pow-succ e, two-pow-succ (e + d)) (omega (arith, power-add e d))

hundredth_at-le : (e d n : ℕ) → n ≤ 100 * 2 ^ (e + d) → hundredth_at e n ≤ 2 ^ (e + d)
unfolding hundredth_at
hundredth_at-le e d n h =
    let unit = 100 * 2 ^ e in
    let positive : 0 < unit = omega (arith, power_positive e) in
    let most : n ≤ unit * 2 ^ d = omega (arith, h, power-add e d) in
    let bound =
      nearest-le unit (n / unit) (n % unit) n (2 ^ d) positive (div-add-mod n unit)
        (mod-lt n positive) most in
    omega (arith, mul-le-mul_right (2 ^ e) bound, power-add e d)

bit_length-le : (fuel k n : ℕ) → n < 2 ^ k → bit_length fuel n ≤ k
unfolding bit_length
bit_length-le zero k n h = omega arith
bit_length-le (suc fuel) zero n h = ground (arith, h)
bit_length-le (suc fuel) (suc k) n h =
    let half : n / 2 < 2 ^ k =
      (div-lt_iff_lt-mul {k = 2} {x = n} {y = 2 ^ k} (omega arith)).1
        (omega (arith, h, two-pow-succ k)) in
    ground (arith, bit_length-le fuel k (n / 2) half)

below_power : (e t n : ℕ) → e ≤ t → n ≤ 100 * 2 ^ t → hundredth_at e n ≤ 2 ^ t
below_power e t n h k =
    let whole : e + (t - e) ≡ t = omega (arith, h) in
    subst (λ x. hundredth_at e n ≤ 2 ^ x) whole
      (hundredth_at-le e (t - e) n (subst (λ x. n ≤ 100 * 2 ^ x) (sym whole) k))

bits_below : (fuel t n : ℕ) → n ≤ 100 * 2 ^ t → bit_length fuel (n / 100) - 53 ≤ t
bits_below fuel t n h =
    let part : n / 100 < 2 ^ suc t =
      (div-lt_iff_lt-mul {k = 100} {x = n} {y = 2 ^ suc t} (omega arith)).1
        (omega (arith, h, two-pow-succ t, power_positive t)) in
    omega (arith, bit_length-le fuel (suc t) (n / 100) part)

rounded_below :
    (fuel t n : ℕ) → n ≤ 100 * 2 ^ t → hundredth_at (bit_length fuel (n / 100) - 53) n ≤ 2 ^ t
rounded_below fuel t n h =
    below_power (bit_length fuel (n / 100) - 53) t n (bits_below fuel t n h) h

one-power : one ≡ 2 ^ 1074
unfolding one
one-power = refl

round_hundredth-le : (n : ℕ) → n ≤ 100 * one → round_hundredth n ≤ one
unfolding round_hundredth
round_hundredth-le n h =
    subst (λ x. round_hundredth n ≤ x) (sym one-power)
      (rounded_below 2200 1074 n (subst (λ x. n ≤ 100 * x) one-power h))

le-above : (m : ℕ) → le (finite (pos 0)) (finite (pos m)) ≡ true
unfolding le lt eq
le-above m = ground arith

le-below : (m n : ℕ) → m ≤ n → le (finite (pos m)) (finite (pos n)) ≡ true
unfolding le lt eq
le-below m n h = ground (arith, h)

below-le : (m n : ℕ) → le (finite (pos m)) (finite (pos n)) ≡ true → m ≤ n
unfolding le lt eq
below-le m n h = ground (arith, h)

-- A number from 0 to 100 is divided to one from 0 to 1.
pub hundredth-in_range :
    (x : Float)
    → le (finite (pos 0)) x ≡ true
    → le x (finite (pos (100 * one))) ≡ true
    → (le (finite (pos 0)) (hundredth x) ≡ true) × (le (hundredth x) (finite (pos one)) ≡ true)
unfolding hundredth le lt eq
hundredth-in_range nan h k = absurd (cc h)
hundredth-in_range neg_inf h k = absurd (cc h)
hundredth-in_range pos_inf h k = absurd (cc k)
hundredth-in_range (finite (negsuc n)) h k = absurd (ground (arith, h))
hundredth-in_range (finite (pos n)) h k = (
  le-above (round_hundredth n),
  le-below (round_hundredth n) one (round_hundredth-le n (below-le n (100 * one) k)),
)
