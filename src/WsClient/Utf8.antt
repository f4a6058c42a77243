-- ===== src/WsClient/Utf8.antt =====
-- `bytes.decode()`: strict UTF-8, one byte at a time.
use nim_vortex.Prelude.{
  ℕ, zero, suc, ◌+◌, ◌-◌, ◌*◌, ◌&&◌, Option, none, some, [], ◌∷◌, ◌++◌, ltb, leb, ◌==◌,
  if◌then◌else◌,
}
use nim_vortex.Prelude.Bytes.{Bytes}

-- What has been decoded, and the character under way: how many bytes it still needs, its value so far,
-- and the bounds of the next byte.
pub record Decoder : Type 0 where
  pub out : Bytes
  pub needed : ℕ
  pub value : ℕ
  pub lo : ℕ
  pub hi : ℕ

abbrev between : Bytes → Decoder
between out = record { out = out; needed = 0; value = 0; lo = 0; hi = 0 }

-- The first byte of a character: the bounds exclude overlong forms, surrogates and what lies above 0x10ffff.
unfoldable pub first_byte : ℕ → Bytes → Option Decoder
first_byte c out =
    if ltb c 0x80
    then some (between (out ++ c ∷ []))
    else if ltb c 0xc2
    then none
    else if ltb c 0xe0
    then some (record { out = out; needed = 1; value = c - 0xc0; lo = 0x80; hi = 0xbf })
    else if ltb c 0xf0
    then some (record {
      out = out;
      needed = 2;
      value = c - 0xe0;
      lo = if c == 0xe0 then 0xa0 else 0x80;
      hi = if c == 0xed then 0x9f else 0xbf;
    })
    else if ltb c 0xf5
    then some (record {
      out = out;
      needed = 3;
      value = c - 0xf0;
      lo = if c == 0xf0 then 0x90 else 0x80;
      hi = if c == 0xf4 then 0x8f else 0xbf;
    })
    else none

unfoldable pub decode_byte : ℕ → ℕ → Decoder → Option Decoder
decode_byte zero c d = first_byte c d.out
decode_byte (suc needed) c d =
    let value = d.value * 64 + (c - 0x80) in
    if leb d.lo c && leb c d.hi
    then some (
        if needed == 0
        then between (d.out ++ value ∷ [])
        else record { out = d.out; needed = needed; value = value; lo = 0x80; hi = 0xbf })
    else none

unfoldable pub decode_from : Decoder → Bytes → Option Bytes
decode_from d [] = if d.needed == 0 then some d.out else none
decode_from d (c ∷ s) = elim (decode_byte d.needed c d) [ none ↦ none | some d' ↦ decode_from d' s ]

-- `v.decode()`, or the UnicodeDecodeError
unfoldable pub decode_utf8 : Bytes → Option Bytes
decode_utf8 v = decode_from (between []) v
