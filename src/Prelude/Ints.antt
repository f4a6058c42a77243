-- ===== src/Prelude/Ints.antt =====
-- `int` on a text or on bytes, and decoding from ASCII. An integer is a sign and a number.
use mathlib.Core.Option
use nim_vortex.Prelude.{
  ℕ, zero, suc, ◌+◌, ◌-◌, ◌*◌, Bool, false, ◌&&◌, ◌||◌, Option, none, some, [], ◌∷◌, ltb, leb, ◌==◌,
  if◌then◌else◌,
}
use nim_vortex.Prelude.Bytes.{Bytes}
use nim_vortex.Prelude.Text.{is_digit}

pub data ℤ : Type 0 where
  pos : ℕ → ℤ
  negsuc : ℕ → ℤ

unfoldable pub negated : ℕ → ℤ
negated zero = pos zero
negated (suc n) = negsuc n

-- Digits, with single underscores between them; `after_digit` tells what stood before.
unfoldable pub digits_from : Bool → ℕ → Bytes → Option ℕ
digits_from after_digit acc [] = if after_digit then some acc else none
digits_from after_digit acc (c ∷ s) =
    if is_digit c || (after_digit && c == b'_')
    then digits_from (is_digit c) (if is_digit c then acc * 10 + (c - b'0') else acc) s
    else none

unfoldable pub digit_count : Bytes → ℕ
digit_count [] = 0
digit_count (c ∷ s) = (if is_digit c then 1 else 0) + digit_count s

unfoldable pub signed : Bytes → Option ℤ
signed [] = none
signed (c ∷ s) =
    if c == b'-'
    then Option.map negated (digits_from false 0 s)
    else if c == b'+'
    then Option.map pos (digits_from false 0 s)
    else Option.map pos (digits_from false 0 (c ∷ s))

unfoldable pub is_ascii_space : ℕ → Bool
is_ascii_space c = c == 32 || (leb 9 c && leb c 13)

unfoldable pub skip_spaces : Bytes → Bytes
skip_spaces [] = []
skip_spaces (c ∷ s) = if is_ascii_space c then skip_spaces s else c ∷ s

unfoldable pub keep_inner : ℕ → Bytes → Bytes
keep_inner c [] = if is_ascii_space c then [] else c ∷ []
keep_inner c (d ∷ s) = c ∷ d ∷ s

unfoldable pub trim_right : Bytes → Bytes
trim_right [] = []
trim_right (c ∷ s) = keep_inner c (trim_right s)

-- `int(v)` of bytes, or the ValueError.
unfoldable pub int_of_bytes : Bytes → Option ℤ
int_of_bytes v = if ltb 4300 (digit_count v) then none else signed (skip_spaces (trim_right v))

-- `v.decode("ascii", "replace")`
unfoldable pub decode_ascii : Bytes → Bytes
decode_ascii [] = []
decode_ascii (c ∷ s) = (if ltb c 128 then c else 0xfffd) ∷ decode_ascii s
