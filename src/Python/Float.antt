-- ===== src/Python/Float.antt =====
-- Python's `float`, an IEEE 754 double. Every finite double is a whole multiple of 2^-1074, so
-- `finite n` is the double n * 2^-1074 and comparisons are exact; 0.0 and -0.0 are one value, as
-- they are for every comparison.
pub mod Order
pub mod Hundredth
use optimaler_status.Base.{
  ℕ, zero, suc, ◌+◌, ◌-◌, ◌*◌, ◌/◌, ◌%◌, ◌^◌, ◌≡◌, refl, Bool, true, false, ◌&&◌, ◌||◌, ltb, leb,
  ◌==◌, if◌then◌else◌,
}
use optimaler_status.Base.Int.{ℤ, pos, negsuc, ltb_ℤ, eqb_ℤ, magnitude}
use optimaler_status.Python.Result.{Result, ok, err, overflow_error}

pub data Float : Type 0 where
  nan neg_inf pos_inf : Float
  finite : ℤ → Float

-- x < y
unfoldable pub lt : Float → Float → Bool
lt (finite a) (finite b) = ltb_ℤ a b
lt (finite a) pos_inf = true
lt neg_inf (finite b) = true
lt neg_inf pos_inf = true
lt _ _ = false

-- x == y
unfoldable pub eq : Float → Float → Bool
eq (finite a) (finite b) = eqb_ℤ a b
eq neg_inf neg_inf = true
eq pos_inf pos_inf = true
eq _ _ = false

-- x <= y
unfoldable pub le : Float → Float → Bool
unfolding lt eq
le x y = lt x y || eq x y

-- The number of binary digits, for a number below 2 ^ fuel.
pub bit_length : ℕ → ℕ → ℕ
bit_length zero n = 0
bit_length (suc fuel) n = let rest = bit_length fuel (n / 2) in if n == 0 then 0 else rest + 1

-- n to 53 significant bits, ties to even.
pub round_at : ℕ → ℕ → ℕ
round_at e n =
    let unit = 2 ^ e in
    let q = n / unit in
    let r = n % unit in
    if ltb unit (2 * r) || (2 * r == unit && q % 2 == 1) then (q + 1) * unit else q * unit

unfoldable pub round53 : ℕ → ℕ
unfolding bit_length round_at
round53 n = round_at (bit_length 1024 n - 53) n

-- What one unit in the first place is worth: 1.0 is `finite (pos one)`.
unfoldable pub one : ℕ
one = 2 ^ 1074

-- The least magnitude that rounds past the largest double.
unfoldable pub overflow_limit : ℕ
overflow_limit = 2 ^ 1024 - 2 ^ 970

scale : ℤ → ℤ
unfolding round53 one
scale (pos n) = pos (round53 n * one)
scale (negsuc n) = elim (round53 (suc n) * one) [ zero ↦ pos 0 | suc m ↦ negsuc m ]

-- float(n) for an int: it raises OverflowError where the rounded value is no double.
unfoldable pub of_int : ℤ → Result Float
unfolding scale overflow_limit
of_int n = if leb overflow_limit (magnitude n) then err overflow_error else ok (finite (scale n))

of_int_small : of_int (pos 3) ≡ ok (finite (pos (3 * one)))
unfolding of_int
of_int_small = refl

-- 2^53 + 1 is no double: the tie goes to the even neighbour.
round53_tie : round53 9007199254740993 ≡ 9007199254740992
unfolding round53
round53_tie = refl

round53_up : round53 9007199254740995 ≡ 9007199254740996
unfolding round53
round53_up = refl
