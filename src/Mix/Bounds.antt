-- ===== src/Mix/Bounds.antt =====
-- How far the integer part of a rounded quotient can be from the exact quotient.
use nim_vortex.Prelude.{
  ℕ, zero, suc, ◌+◌, ◌*◌, ◌/◌, ◌%◌, ◌^◌, ◌≤◌, ◌<◌, ◌≡◌, inl, inr, ap, leb, ◌==◌, arith, ==_iff,
  Bool-cases,
}
use native.Mathlib.Decide.{dec_le}
use native.Mathlib.Nat.{div-add-mod', mod-lt, pow-suc}
use nim_vortex.Mix.Quotient.{Double, round_even, divide_from, divide, whole}

-- The quotient or the next number, whichever the remainder allows, is within half a unit.
abbrev Near : ℕ → ℕ → ℕ → Type 0
Near a b m = (2 * (m * b) ≤ 2 * a + b) × (2 * a ≤ 2 * (m * b) + b)

round_down : (a b : ℕ) → 2 * (a % b) ≤ b → Near a b (a / b)
round_down a b h = omega (arith, div-add-mod' a b)

round_up : (a b : ℕ) → 0 < b → b ≤ 2 * (a % b) → Near a b (a / b + 1)
round_up a b p h = omega (arith, div-add-mod' a b, mod-lt a p)

round_tie : (a b : ℕ) → 0 < b → 2 * (a % b) ≡ b → Near a b (a / b + a / b % 2)
round_tie a b p h = elim (Bool-cases (a / b % 2 == 0)) [
  | inl even ↦
      let e : a / b + a / b % 2 ≡ a / b = omega (arith, (==_iff _ _).0 even) in
      rw e (round_down a b (omega arith))
  | inr odd ↦
      let e : a / b + a / b % 2 ≡ a / b + 1 = ground arith in rw e (round_up a b p (omega arith))
]

round_even_bounds : (a b : ℕ) → 0 < b → Near a b (round_even a b)
unfolding round_even
round_even_bounds a b p = ground (arith, round_down a b, round_up a b p, round_tie a b p)

divide_from_bounds :
    (fuel a a' b s : ℕ)
    → 0 < b
    → a' ≡ a * 2 ^ s
    → Near (a * 2 ^ (divide_from fuel a' b s).scale) b (divide_from fuel a' b s).mant
unfolding divide_from
divide_from_bounds zero a a' b s p e = rw (← e) (round_even_bounds a' b p)
divide_from_bounds (suc fuel) a a' b s p e = elim (Bool-cases (leb (2 ^ 52 * b) a')) [
  | inl enough ↦ rw (enough, ← e) (round_even_bounds a' b p)
  | inr more ↦ rw more (
      divide_from_bounds fuel a (2 * a') b (suc s) p
        (omega (arith, ap (λ (t : ℕ). a * t) (pow-suc 2 s))))
]

-- A quotient below 2 ^ 50 has at least two digits behind the binary point.
divide_from_scale : (fuel a b s : ℕ) → s ≤ (divide_from fuel a b s).scale
unfolding divide_from
divide_from_scale zero a b s = omega arith
divide_from_scale (suc fuel) a b s = ground (arith, divide_from_scale fuel (2 * a) b (suc s))

divide_from_step :
    (fuel a b s : ℕ)
    → a < 2 ^ 52 * b
    → divide_from (suc fuel) a b s ≡ divide_from fuel (2 * a) b (suc s)
unfolding divide_from
divide_from_step fuel a b s h = ground arith

divide_scale : (a b : ℕ) → a < 2 ^ 50 * b → 2 ≤ (divide a b).scale
unfolding divide
divide_scale a b h = rw (divide_from_step 1073 a b 0 (omega arith)) (
    rw (divide_from_step 1072 (2 * a) b 1 (omega arith)) (divide_from_scale 1072 (2 * (2 * a)) b 2))

-- The power of two that belongs to a scale of two or more is a multiple of four.
pow_two_four : (s : ℕ) → 2 ≤ s → (p : ℕ) × (2 ^ s ≡ 4 * p) × (1 ≤ p)
pow_two_four zero h = absurd (omega arith)
pow_two_four (suc zero) h = absurd (omega arith)
pow_two_four (suc (suc s)) h = (2 ^ s, omega (arith, pow-suc 2 (suc s), pow-suc 2 s), pow_two_pos s)
  where
    pow_two_pos : (t : ℕ) → 1 ≤ 2 ^ t
    pow_two_pos zero = omega arith
    pow_two_pos (suc t) = omega (arith, pow-suc 2 t, pow_two_pos t)

pub mul_mono : (x y k : ℕ) → x ≤ y → x * k ≤ y * k
mul_mono x y k h = grind arith

-- `w` is the integer part of a number within half a unit in the last place of `a / b`, where the
-- last place is worth `1 / (4 * p)`.
upper_part :
    (a b m p w : ℕ)
    → 1 ≤ p
    → w * (4 * p) ≤ m
    → 2 * (m * b) ≤ 2 * (a * (4 * p)) + b
    → 8 * (w * b) ≤ 8 * a + b
upper_part a b m p w hp hw hm = elim (dec_le (8 * (w * b)) (8 * a + b)) [
  | yes le ↦ le
  | no gt ↦ absurd (
      omega (
        arith,
        mul_mono (8 * a + b + 1) (8 * (w * b)) p (omega arith),
        mul_mono (w * (4 * p)) m b hw,
        mul_mono 1 p b hp,
      ))
]

lower_part :
    (a b m p w : ℕ)
    → 1 ≤ p
    → m < (w + 1) * (4 * p)
    → 2 * (a * (4 * p)) ≤ 2 * (m * b) + b
    → 8 * a ≤ 8 * (w * b) + 9 * b
lower_part a b m p w hp hw hm = elim (dec_le (8 * a) (8 * (w * b) + 9 * b)) [
  | yes le ↦ le
  | no gt ↦ absurd (
      omega (
        arith,
        mul_mono (8 * (w * b) + 9 * b + 1) (8 * a) p (omega arith),
        mul_mono m ((w + 1) * (4 * p)) b (omega arith),
        mul_mono 1 p b hp,
      ))
]

whole_parts :
    (a b p : ℕ) (x : Double)
    → 0 < b
    → 1 ≤ p
    → 2 ^ x.scale ≡ 4 * p
    → Near (a * 2 ^ x.scale) b x.mant
    → (8 * (whole x * b) ≤ 8 * a + b) × (8 * a ≤ 8 * (whole x * b) + 9 * b)
unfolding whole
whole_parts a b p x hb hp e near =
    let (below, above) : Near (a * (4 * p)) b x.mant = rw e at near in
    rw e (
      upper_part a b x.mant p (x.mant / (4 * p)) hp (omega (arith, div-add-mod' x.mant (4 * p)))
          below,
      lower_part a b x.mant p (x.mant / (4 * p)) hp
          (omega (arith, div-add-mod' x.mant (4 * p), mod-lt x.mant {m = 4 * p} (omega arith)))
          above,
    )

divide-Near : (a b : ℕ) → 0 < b → Near (a * 2 ^ (divide a b).scale) b (divide a b).mant
unfolding divide
divide-Near a b hb = divide_from_bounds 1074 a a b 0 hb (omega arith)

-- The integer part of a quotient below 2 ^ 50: above the exact quotient by an eighth at most, and
-- below it by nine eighths at most.
pub whole-divide :
    (a b : ℕ)
    → 0 < b
    → a < 2 ^ 50 * b
    → (8 * (whole (divide a b) * b) ≤ 8 * a + b) × (8 * a ≤ 8 * (whole (divide a b) * b) + 9 * b)
unfolding whole
whole-divide a b hb small =
    let (p, four, pos) = pow_two_four (divide a b).scale (divide_scale a b small) in
    whole_parts a b p (divide a b) hb pos four (divide-Near a b hb)
