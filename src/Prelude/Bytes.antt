-- ===== src/Prelude/Bytes.antt =====
-- Byte strings as lists of numbers below 256, texts as code points, and the few facts on bit
-- operations that the byte formats need, each checked over all of a byte's values.
use Prim.Native.Char.{code}
use Prim.Native.String.{String}
use Prim.Native.Nat.{ℕ, zero, suc, ◌+◌, ◌*◌, ◌/◌, ◌%◌, ◌^◌, ◌<◌, bit_and, bit_or, bit_xor}
use mathlib.Core.Path.{◌≡◌, refl, ap, ◌∙◌}
use mathlib.Core.Bool.{Bool, true, false, ◌&&◌}
use mathlib.Core.List.{List, [], ◌∷◌, ◌++◌}
use native.Mathlib.Omega.{arith}
use nim_vortex.Prelude.Tests.{◌==◌, ==_iff, ltb, if◌then◌else◌}
use nim_vortex.Prelude.Lists.{length, length-append}

abbrev pub Bytes : Type 0
Bytes = List ℕ

-- The code points of a text, which are its bytes where the text is ASCII.
abbrev pub codes : String → Bytes
codes String.[] = []
codes (String.◌∷◌ c s) = code c ∷ codes s

abbrev pub AreBytes : Bytes → Type 0
AreBytes [] = Unit
AreBytes (b ∷ bs) = (b < 256) × AreBytes bs

-- `a == b` of two byte strings.
unfoldable pub equal : Bytes → Bytes → Bool
equal [] [] = true
equal (x ∷ xs) (y ∷ ys) = x == y && equal xs ys
equal _ _ = false

pub equal_sound : (xs ys : Bytes) → equal xs ys ≡ true → xs ≡ ys
unfolding equal
equal_sound [] [] h = refl
equal_sound [] (y ∷ ys) h = ground arith
equal_sound (x ∷ xs) [] h = ground arith
equal_sound (x ∷ xs) (y ∷ ys) h = ground (arith, equal_sound xs ys)

pub equal_refl : (xs : Bytes) → equal xs xs ≡ true
unfolding equal
equal_refl [] = refl
equal_refl (x ∷ xs) = ground (arith, equal_refl xs)

-- `int.from_bytes(bs, "big")` and, for a number below `256 ^ k`, `n.to_bytes(k, "big")`.
unfoldable pub from_bytes_onto : ℕ → Bytes → ℕ
from_bytes_onto acc [] = acc
from_bytes_onto acc (b ∷ bs) = from_bytes_onto (acc * 256 + b) bs

unfoldable pub from_bytes : Bytes → ℕ
unfolding from_bytes_onto
from_bytes = from_bytes_onto 0

unfoldable pub to_bytes : ℕ → ℕ → Bytes
to_bytes zero n = []
to_bytes (suc k) n = to_bytes k (n / 256) ++ (n % 256) ∷ []

pub length-to_bytes : (k n : ℕ) → length (to_bytes k n) ≡ k
unfolding to_bytes
length-to_bytes zero n = refl
length-to_bytes (suc k) n =
    omega
      (arith, length-append (to_bytes k (n / 256)) ((n % 256) ∷ []), length-to_bytes k (n / 256))

from_bytes_onto-append :
    (acc : ℕ) (bs : Bytes) (b : ℕ)
    → from_bytes_onto acc (bs ++ b ∷ []) ≡ from_bytes_onto acc bs * 256 + b
unfolding from_bytes_onto
from_bytes_onto-append acc [] b = refl
from_bytes_onto-append acc (c ∷ bs) b = from_bytes_onto-append (acc * 256 + c) bs b

pub from_bytes-to_bytes : (k n : ℕ) → n < 256 ^ k → from_bytes (to_bytes k n) ≡ n
unfolding from_bytes to_bytes
from_bytes-to_bytes zero n h = omega arith
from_bytes-to_bytes (suc k) n h =
    from_bytes_onto-append 0 (to_bytes k (n / 256)) (n % 256)
    ∙ omega (arith, from_bytes-to_bytes k (n / 256) (omega (arith, pow_step k)))
  where
    pow_step : (j : ℕ) → 256 ^ suc j ≡ 256 * 256 ^ j
    pow_step j = omega arith

-- A statement about all bytes is checked by evaluation.
every : (ℕ → Bool) → ℕ → Bool
every holds zero = true
every holds (suc bound) = every holds bound && holds bound

every_lem : (holds : ℕ → Bool) (k bound : ℕ) → every holds bound ≡ true → k < bound → holds k ≡ true
unfolding every
every_lem holds k zero all below = absurd (omega arith)
every_lem holds k (suc bound) all below = ground (arith, every_lem holds k bound)

top_bit_table : every (λ b. bit_and b 0x80 == (if ltb b 128 then 0 else 128)) 256 ≡ true
unfolding every
top_bit_table = refl

pub bit_and_0x80 : (b : ℕ) → b < 256 → bit_and b 0x80 ≡ (if ltb b 128 then 0 else 128)
bit_and_0x80 b h = (==_iff _ _).0 (every_lem _ b 256 top_bit_table h)

low_seven_table : every (λ b. bit_and b 0x7f == b % 128) 256 ≡ true
unfolding every
low_seven_table = refl

pub bit_and_0x7f : (b : ℕ) → b < 256 → bit_and b 0x7f ≡ b % 128
bit_and_0x7f b h = (==_iff _ _).0 (every_lem _ b 256 low_seven_table h)

low_four_table : every (λ b. bit_and b 0x0f == b % 16) 256 ≡ true
unfolding every
low_four_table = refl

pub bit_and_0x0f : (b : ℕ) → b < 256 → bit_and b 0x0f ≡ b % 16
bit_and_0x0f b h = (==_iff _ _).0 (every_lem _ b 256 low_four_table h)

set_top_bit_table : every (λ b. bit_or 0x80 b == 128 + b) 128 ≡ true
unfolding every
set_top_bit_table = refl

pub bit_or_0x80 : (b : ℕ) → b < 128 → bit_or 0x80 b ≡ 128 + b
bit_or_0x80 b h = (==_iff _ _).0 (every_lem _ b 128 set_top_bit_table h)

zero_bit_or_table : every (λ b. bit_or 0 b == b) 128 ≡ true
unfolding every
zero_bit_or_table = refl

pub zero-bit_or : (b : ℕ) → b < 128 → bit_or 0 b ≡ b
zero-bit_or b h = (==_iff _ _).0 (every_lem _ b 128 zero_bit_or_table h)

join_table : every (λ x. every (λ y. bit_or (x * 2 ^ 8) y == x * 256 + y) 256) 256 ≡ true
unfolding every
join_table = refl

-- `(x << 8) | y` for two bytes.
pub bit_or_shifted : (x y : ℕ) → x < 256 → y < 256 → bit_or (x * 2 ^ 8) y ≡ x * 256 + y
bit_or_shifted x y hx hy = (==_iff _ _).0 (
    every_lem (λ k. bit_or (x * 2 ^ 8) k == x * 256 + k) y 256 (every_lem _ x 256 join_table hx) hy)

xor_twice_table : every (λ m. every (λ b. bit_xor (bit_xor b m) m == b) 256) 256 ≡ true
unfolding every
xor_twice_table = refl

pub bit_xor_twice : (b m : ℕ) → b < 256 → m < 256 → bit_xor (bit_xor b m) m ≡ b
bit_xor_twice b m hb hm =
    (==_iff _ _).0 (
      every_lem (λ k. bit_xor (bit_xor k m) m == k) b 256 (every_lem _ m 256 xor_twice_table hm) hb)

-- `n & 0xff` takes the low byte of a number of two bytes.
low_byte_table : every (λ x. every (λ y. bit_and (x * 256 + y) 0xff == y) 256) 256 ≡ true
unfolding every
low_byte_table = refl

low_byte_of : (x y : ℕ) → x < 256 → y < 256 → bit_and (x * 256 + y) 0xff ≡ y
low_byte_of x y hx hy = (==_iff _ _).0 (
    every_lem (λ k. bit_and (x * 256 + k) 0xff == k) y 256 (every_lem _ x 256 low_byte_table hx) hy)

pub bit_and_0xff : (n : ℕ) → n < 65536 → bit_and n 0xff ≡ n % 256
bit_and_0xff n h =
    ap (λ (k : ℕ). bit_and k 0xff) (omega arith)
    ∙ low_byte_of (n / 256) (n % 256) (omega arith) (omega arith)

-- The value of two bytes.
pub from_bytes_two : (x y : ℕ) → from_bytes (x ∷ y ∷ []) ≡ x * 256 + y
unfolding from_bytes
from_bytes_two x y = omega arith
