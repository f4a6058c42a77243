-- ===== src/Mix/Quotient.antt =====
-- The quotient of two Python ints as a binary64 number, with the two things that `split_mix` asks of
-- it: `int(x)` and the order of the fractional parts.
use nim_vortex.Prelude.{ℕ, zero, suc, ◌+◌, ◌*◌, ◌/◌, ◌%◌, ◌^◌, Bool, ltb, leb, if◌then◌else◌}

-- The number `mant / 2 ^ scale`.
pub record Double : Type 0 where
  pub mant : ℕ
  pub scale : ℕ

-- The integer nearest to `a / b`, a tie to the even one.
unfoldable pub round_even : ℕ → ℕ → ℕ
round_even a b =
    if ltb (2 * (a % b)) b
    then a / b
    else if ltb b (2 * (a % b))
    then a / b + 1
    else a / b + (a / b) % 2

-- Double the dividend until the quotient has 53 bits, or the least exponent is reached.
unfoldable pub divide_from : ℕ → ℕ → ℕ → ℕ → Double
divide_from zero a b s = record { mant = round_even a b; scale = s }
divide_from (suc fuel) a b s =
    let scaled_up = divide_from fuel (2 * a) b (suc s) in
    if leb (2 ^ 52 * b) a then record { mant = round_even a b; scale = s } else scaled_up

-- `a / b` of two ints, for `b` above 0 and a quotient below 2 ^ 53: correctly rounded, to nearest,
-- ties to even; the fuel is the range of the exponent, so a quotient below 2 ^ -1022 is subnormal.
unfoldable pub divide : ℕ → ℕ → Double
divide a b = divide_from 1074 a b 0

-- `int(x)`
unfoldable pub whole : Double → ℕ
whole x = x.mant / 2 ^ x.scale

-- `x - int(x) < y - int(y)`; both subtractions are exact
unfoldable pub fraction_lt : Double → Double → Bool
fraction_lt x y = ltb (x.mant % 2 ^ x.scale * 2 ^ y.scale) (y.mant % 2 ^ y.scale * 2 ^ x.scale)
