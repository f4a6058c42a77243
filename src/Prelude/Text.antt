-- ===== src/Prelude/Text.antt =====
-- The text operations of Python that the clients use, on texts as lists of code points.
use nim_vortex.Prelude.{
  ℕ, zero, suc, ◌+◌, ◌-◌, ◌*◌, ◌/◌, ◌%◌, Bool, true, false, ◌&&◌, ◌||◌, List, [], ◌∷◌, ◌++◌, ltb,
  leb, ◌==◌, if◌then◌else◌,
}
use nim_vortex.Prelude.Bytes.{Bytes, codes, equal}

-- `str.isspace` of one character, by which `strip` cuts.
unfoldable pub is_space : ℕ → Bool
is_space c =
    (leb 9 c && leb c 13)
    || (leb 28 c && leb c 32)
    || c == 0x85
    || c == 0xa0
    || c == 0x1680
    || (leb 0x2000 c && leb c 0x200a)
    || c == 0x2028
    || c == 0x2029
    || c == 0x202f
    || c == 0x205f
    || c == 0x3000

unfoldable pub lstrip : Bytes → Bytes
lstrip [] = []
lstrip (c ∷ s) = if is_space c then lstrip s else c ∷ s

-- A character survives at the end if it or anything behind it is no space.
unfoldable pub keep_or_drop : ℕ → Bytes → Bytes
keep_or_drop c [] = if is_space c then [] else c ∷ []
keep_or_drop c (d ∷ s) = c ∷ d ∷ s

unfoldable pub rstrip : Bytes → Bytes
rstrip [] = []
rstrip (c ∷ s) = keep_or_drop c (rstrip s)

unfoldable pub strip : Bytes → Bytes
strip s = lstrip (rstrip s)

-- `str.lower` on ASCII letters.
unfoldable pub lower : Bytes → Bytes
lower [] = []
lower (c ∷ s) = (if leb b'A' c && leb c b'Z' then c + 32 else c) ∷ lower s

unfoldable pub extend_first : ℕ → List Bytes → List Bytes
extend_first c [] = (c ∷ []) ∷ []
extend_first c (part ∷ parts) = (c ∷ part) ∷ parts

-- `str.split(sep)` for one character: one part more than there are separators.
unfoldable pub split_on : ℕ → Bytes → List Bytes
split_on sep [] = [] ∷ []
split_on sep (c ∷ s) = if c == sep then [] ∷ split_on sep s else extend_first c (split_on sep s)

-- `str.partition(sep)`: what stands before the first separator, whether there is one, and the rest.
unfoldable pub partition : ℕ → Bytes → Bytes × Bool × Bytes
partition sep [] = ([], false, [])
partition sep (c ∷ s) =
    let (before, found, behind) = partition sep s in
    if c == sep then ([], true, s) else (c ∷ before, found, behind)

unfoldable pub is_digit : ℕ → Bool
is_digit c = leb b'0' c && leb c b'9'

unfoldable pub all_digits : Bytes → Bool
all_digits [] = true
all_digits (c ∷ s) = is_digit c && all_digits s

-- `v.isascii() and v.isdigit()`
unfoldable pub is_ascii_digits : Bytes → Bool
is_ascii_digits [] = false
is_ascii_digits (c ∷ s) = all_digits (c ∷ s)

-- `int(v)` of a text of digits.
unfoldable pub int_onto : ℕ → Bytes → ℕ
int_onto acc [] = acc
int_onto acc (c ∷ s) = int_onto (acc * 10 + (c - b'0')) s

-- `name in names`
unfoldable pub contains : Bytes → List Bytes → Bool
contains k [] = false
contains k (j ∷ js) = if equal k j then true else contains k js

-- `s.startswith(prefix)`
unfoldable pub starts_with : Bytes → Bytes → Bool
starts_with s [] = true
starts_with [] (p ∷ ps) = false
starts_with (c ∷ s) (p ∷ ps) = c == p && starts_with s ps

-- `str(n)` of a number, and an f-string's decimal field.
unfoldable pub show_onto : ℕ → ℕ → Bytes → Bytes
show_onto zero n out = out
show_onto (suc fuel) n out =
    let rest = show_onto fuel (n / 10) ((b'0' + n % 10) ∷ out) in
    if ltb n 10 then (b'0' + n % 10) ∷ out else rest

-- A number has fewer digits than one more than itself.
unfoldable pub show : ℕ → Bytes
show n = show_onto (suc n) n []

-- `", ".join(xs)`
unfoldable pub join_comma : List Bytes → Bytes
join_comma [] = []
join_comma (x ∷ []) = x
join_comma (x ∷ y ∷ xs) = x ++ (codes ", " ++ join_comma (y ∷ xs))
