-- ===== src/Ws/Reads.antt =====
-- `parse_ws` against the layout of a frame, written out with no bit operations: which frames it takes off
-- any buffer, and why it stops.
use nim_vortex.Prelude.{
  ℕ, zero, suc, ◌+◌, ◌*◌, ◌%◌, ◌≤◌, ◌<◌, ◌≡◌, ◌⊎◌, inl, inr, refl, ap, [], ◌∷◌, ◌==◌, if◌then◌else◌,
  ltb, length, get_or, drop, arith, Bool-cases, length-drop,
}
use nim_vortex.Prelude.Bytes.{
  Bytes, AreBytes, from_bytes, bit_and_0x80, bit_and_0x7f, bit_and_0x0f, bit_or_shifted,
}
use nim_vortex.Ws.{
  Round, stop, fault, frame, slice, byte, payload_round, length_round, parse_round, Parsed, parsed,
  assertion_error, parse_ws,
}
use nim_vortex.Ws.Progress.{InBounds, parse_round-InBounds, place, after_round, parse_ws_lem}

-- The size of the header and of the payload, by the low seven bits of the second byte.
unfoldable pub header_size : Bytes → ℕ
header_size buf = if byte buf 1 % 128 == 126 then 4 else if byte buf 1 % 128 == 127 then 10 else 2

unfoldable pub payload_size : Bytes → ℕ
payload_size buf =
    if byte buf 1 % 128 == 126
    then byte buf 2 * 256 + byte buf 3
    else if byte buf 1 % 128 == 127
    then from_bytes (slice buf 2 10)
    else byte buf 1 % 128

-- The mask bit is set.
abbrev pub IsMasked : Bytes → Type 0
IsMasked buf = (2 ≤ length buf) × (128 ≤ byte buf 1)

-- The buffer ends before the first frame does.
abbrev pub IsPartial : Bytes → Type 0
IsPartial buf =
    (length buf < 2)
    ⊎ ((byte buf 1 < 128)
        × ((length buf < header_size buf) ⊎ (length buf < header_size buf + payload_size buf)))

-- The first `n` bytes are a frame with no mask.
abbrev pub IsFrame : Bytes → ℕ → Bytes → ℕ → Type 0
IsFrame buf op payload n =
    (2 ≤ length buf)
    × (byte buf 1 < 128)
    × (n ≡ header_size buf + payload_size buf)
    × (header_size buf ≤ length buf)
    × (n ≤ length buf)
    × (op ≡ byte buf 0 % 16)
    × (payload ≡ slice buf (header_size buf) n)

-- The frames at the front of a buffer, until one is masked or is not there as a whole.
pub data Reads : Bytes → Parsed → Type 0 where
  no_more : (buf : Bytes) → IsPartial buf → Reads buf (parsed [] 0)
  masked : (buf : Bytes) → IsMasked buf → Reads buf assertion_error
  one_frame :
      (buf : Bytes) (op : ℕ) (payload : Bytes) (n : ℕ) (r : Parsed)
      → IsFrame buf op payload n
      → Reads (drop n buf) r
      → Reads buf (place n ((op, payload) ∷ []) r)

byte-below : (buf : Bytes) (i : ℕ) → AreBytes buf → get_or buf i 0 < 256
byte-below [] i h = ground arith
byte-below (b ∷ bs) zero (x, h) = x
byte-below (b ∷ bs) (suc i) (x, h) = byte-below bs i h

drop-AreBytes : (n : ℕ) (buf : Bytes) → AreBytes buf → AreBytes (drop n buf)
drop-AreBytes zero buf h = h
drop-AreBytes (suc n) [] h = tt
drop-AreBytes (suc n) (b ∷ bs) (x, h) = drop-AreBytes n bs h

-- What a round finds at the front.
abbrev Finds : Bytes → Round → Type 0
Finds buf stop = IsPartial buf
Finds buf fault = IsMasked buf
Finds buf (frame op payload n) = IsFrame buf op payload n

payload_round-Finds :
    (buf : Bytes) (hdr ln : ℕ)
    → AreBytes buf
    → 2 ≤ length buf
    → byte buf 1 < 128
    → hdr ≡ header_size buf
    → ln ≡ payload_size buf
    → hdr ≤ length buf
    → Finds buf (payload_round buf 0 hdr ln)
unfolding payload_round
payload_round-Finds buf hdr ln bytes two plain h l fits =
    elim (Bool-cases (ltb (length buf) (0 + hdr + ln))) [
      | inl e ↦ rw e (inr (plain, inr (ground arith)))
      | inr e ↦ rw e (
        two,
        plain,
        omega (arith, h, l),
        omega (arith, h),
        ground arith,
        bit_and_0x0f (byte buf 0) (byte-below buf 0 bytes),
        ap (λ (k : ℕ). slice buf k (0 + hdr + ln)) (omega (arith, h)),
      )
    ]

plain-Finds :
    (buf : Bytes)
    → AreBytes buf
    → 2 ≤ length buf
    → byte buf 1 < 128
    → Finds buf (length_round buf 0 (byte buf 1 % 128))
unfolding length_round
plain-Finds buf bytes two plain = elim (Bool-cases (byte buf 1 % 128 == 126)) [
  | inl medium ↦
      let size : 4 ≡ header_size buf = unfold header_size in rw medium refl in
      elim (Bool-cases (ltb (length buf) (0 + 4))) [
        | inl short ↦ rw (medium, short) (inr (plain, inl (ground (arith, size))))
        | inr long ↦
            let value =
              bit_or_shifted (byte buf 2) (byte buf 3) (byte-below buf 2 bytes)
                (byte-below buf 3 bytes) in
            rw (medium, long)
              (payload_round-Finds buf 4 _ bytes two plain size
                (unfold payload_size in rw (medium, value) refl) (ground arith))
      ]
  | inr other ↦ elim (Bool-cases (byte buf 1 % 128 == 127)) [
    | inl large ↦
        let size : 10 ≡ header_size buf = unfold header_size in rw (other, large) refl in
        elim (Bool-cases (ltb (length buf) (0 + 10))) [
          | inl short ↦ rw (other, large, short) (inr (plain, inl (ground (arith, size))))
          | inr long ↦
              rw (other, large, long)
                (payload_round-Finds buf 10 _ bytes two plain size
                  (unfold payload_size in rw (other, large) refl) (ground arith))
        ]
    | inr small ↦
        rw (other, small)
          (payload_round-Finds buf 2 _ bytes two plain
            (unfold header_size in rw (other, small) refl)
            (unfold payload_size in rw (other, small) refl) two)
  ]
]

parse_round-Finds : (buf : Bytes) → AreBytes buf → Finds buf (parse_round buf 0)
unfolding parse_round
parse_round-Finds buf bytes =
    let b = byte-below buf 1 bytes in
    elim (Bool-cases (ltb (length buf) (0 + 2))) [
      | inl short ↦ rw short (inl (ground arith))
      | inr enough ↦ elim (Bool-cases (ltb (byte buf 1) 128)) [
        | inl plain ↦
            rw (enough, bit_and_0x80 (byte buf 1) b, plain, bit_and_0x7f (byte buf 1) b)
              (plain-Finds buf bytes (ground arith) (ground arith))
        | inr masked_bit ↦
            rw (enough, bit_and_0x80 (byte buf 1) b, masked_bit) (ground arith, ground arith)
      ]
    ]

after_round-Reads :
    (buf : Bytes) (r : Round)
    → Finds buf r
    → InBounds (length buf) 0 r
    → ((n : ℕ) → 2 ≤ n → n ≤ length buf → Reads (drop n buf) (parse_ws (drop n buf)))
    → Reads buf (after_round buf r)
after_round-Reads buf stop f inside ih = no_more buf f
after_round-Reads buf fault f inside ih = masked buf f
after_round-Reads buf (frame op payload n) f (two, below) ih =
    one_frame buf op payload n (parse_ws (drop n buf)) f (ih n two below)

parse_ws-Reads_below :
    (bound : ℕ) (buf : Bytes) → length buf < bound → AreBytes buf → Reads buf (parse_ws buf)
parse_ws-Reads_below zero buf h bytes = absurd (omega arith)
parse_ws-Reads_below (suc bound) buf h bytes = rw (parse_ws_lem buf) (
    after_round-Reads buf (parse_round buf 0) (parse_round-Finds buf bytes)
      (parse_round-InBounds buf 0)
      (λ n two below.
        parse_ws-Reads_below bound (drop n buf) (omega (arith, length-drop n buf))
          (drop-AreBytes n buf bytes)))

-- On every buffer of bytes below 256 `parse_ws` ends, and it takes off it exactly the frames that
-- stand at its front, by the layout of a frame: the opcode, the length in 7, 16 or 64 bits, and the
-- payload. It stops with all of them, and the bytes that they take as `consumed`, where the buffer
-- ends before the next frame does; and it raises the AssertionError where the next frame has its
-- mask bit set, and only there.
pub parse_ws-Reads : (buf : Bytes) → AreBytes buf → Reads buf (parse_ws buf)
parse_ws-Reads buf bytes = parse_ws-Reads_below (suc (length buf)) buf (omega arith) bytes
