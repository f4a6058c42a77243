-- ===== src/Ws/Server.antt =====
-- `parse_ws` against an independent description of what a server sends (RFC 6455, 5.2): an
-- unmasked frame with the shortest length field.
use Prim.Native.Nat.{bit_and, bit_or}
use nim_vortex.Prelude.{
  ℕ, ◌+◌, ◌-◌, ◌*◌, ◌/◌, ◌%◌, ◌^◌, ◌≤◌, ◌<◌, ◌≡◌, refl, sym, [], ◌∷◌, ◌++◌, append_assoc, length,
  drop, ltb, if◌then◌else◌, arith, length-append, length-drop, take-append, drop-append, drop-drop,
  get_or-drop,
}
use nim_vortex.Prelude.Bytes.{
  Bytes, from_bytes, to_bytes, length-to_bytes, from_bytes-to_bytes, bit_and_0x80, bit_and_0x7f,
  bit_and_0x0f, bit_or_shifted,
}
use nim_vortex.Ws.{Round, stop, fault, frame, slice, byte, payload_round, length_round, parse_round}

-- A length field with no mask bit.
unfoldable pub plain_length : ℕ → Bytes
plain_length n =
    if ltb n 126
    then n ∷ []
    else if ltb n 65536
    then 126 ∷ (n / 256) ∷ (n % 256) ∷ []
    else 127 ∷ to_bytes 8 n

-- A frame whose first byte is `b0` (the FIN and reserved bits, and the opcode below them).
unfoldable pub server_frame : ℕ → Bytes → Bytes
server_frame b0 payload = b0 ∷ (plain_length (length payload) ++ payload)

-- What a payload length must be for the 64-bit field to hold it.
abbrev pub Fits : Bytes → Type 0
Fits payload = length payload < 256 ^ 8

-- A round looks only at what stands from its position on.
abbrev pub shift : ℕ → Round → Round
shift n stop = stop
shift n fault = fault
shift n (frame op payload next) = frame op payload (n + next)

payload_round-drop :
    (buf : Bytes) (pos hdr ln : ℕ)
    → pos ≤ length buf
    → payload_round buf pos hdr ln ≡ shift pos (payload_round (drop pos buf) 0 hdr ln)
unfolding payload_round
payload_round-drop buf pos hdr ln h = ground (
  arith,
  length-drop pos buf,
  get_or-drop pos 0 buf 0 pos,
  drop-drop (0 + hdr) pos buf (pos + hdr),
)

length_round-drop :
    (buf : Bytes) (pos ln : ℕ)
    → pos ≤ length buf
    → length_round buf pos ln ≡ shift pos (length_round (drop pos buf) 0 ln)
unfolding length_round
length_round-drop buf pos ln h = ground (
  arith,
  length-drop pos buf,
  get_or-drop pos 2 buf 0 (pos + 2),
  get_or-drop pos 3 buf 0 (pos + 3),
  drop-drop 2 pos buf (pos + 2),
  payload_round-drop buf pos 4 (bit_or (byte buf (pos + 2) * 2 ^ 8) (byte buf (pos + 3))) h,
  payload_round-drop buf pos 10 (from_bytes (slice buf (pos + 2) (pos + 10))) h,
  payload_round-drop buf pos 2 ln h,
)

pub parse_round-drop :
    (buf : Bytes) (pos : ℕ)
    → pos ≤ length buf
    → parse_round buf pos ≡ shift pos (parse_round (drop pos buf) 0)
unfolding parse_round
parse_round-drop buf pos h = ground (
  arith,
  length-drop pos buf,
  get_or-drop pos 1 buf 0 (pos + 1),
  length_round-drop buf pos (bit_and (byte buf (pos + 1)) 0x7f) h,
)

-- The first round over a complete frame takes the frame, whatever follows it.
payload_round_lem :
    (head payload rest : Bytes) (b0 hdr : ℕ)
    → hdr ≡ length (b0 ∷ head)
    → b0 < 256
    → payload_round (b0 ∷ (head ++ (payload ++ rest))) 0 hdr (length payload)
      ≡ frame (b0 % 16) payload (length (b0 ∷ head) + length payload)
unfolding payload_round
payload_round_lem head payload rest b0 hdr e h = ground (
  arith,
  bit_and_0x0f b0 h,
  length-append head (payload ++ rest),
  length-append payload rest,
  drop-append (b0 ∷ head) (payload ++ rest) (0 + hdr) (omega arith),
  take-append payload rest (0 + hdr + length payload - (0 + hdr)) (omega arith),
)

-- One lemma for each width of the length field.
short_round :
    (b0 : ℕ) (payload rest : Bytes)
    → b0 < 256
    → length payload < 126
    → parse_round (b0 ∷ length payload ∷ (payload ++ rest)) 0
      ≡ frame (b0 % 16) payload (2 + length payload)
unfolding parse_round length_round
short_round b0 payload rest h lt = ground (
  arith,
  bit_and_0x80 (length payload) (omega arith),
  bit_and_0x7f (length payload) (omega arith),
  payload_round_lem (length payload ∷ []) payload rest b0 2 refl h,
)

medium_round :
    (b0 : ℕ) (payload rest : Bytes)
    → b0 < 256
    → length payload < 65536
    → parse_round (b0 ∷ 126 ∷ (length payload / 256) ∷ (length payload % 256) ∷ (payload ++ rest)) 0
      ≡ frame (b0 % 16) payload (4 + length payload)
unfolding parse_round length_round
medium_round b0 payload rest h lt = ground (
  arith,
  bit_or_shifted (length payload / 256) (length payload % 256) (omega arith) (omega arith),
  payload_round_lem (126 ∷ (length payload / 256) ∷ (length payload % 256) ∷ []) payload rest b0 4
      refl h,
)

long_round :
    (b0 : ℕ) (payload rest : Bytes)
    → b0 < 256
    → Fits payload
    → parse_round (b0 ∷ 127 ∷ (to_bytes 8 (length payload) ++ (payload ++ rest))) 0
      ≡ frame (b0 % 16) payload (10 + length payload)
unfolding parse_round length_round
long_round b0 payload rest h fits = ground (
  arith,
  length-append (to_bytes 8 (length payload)) (payload ++ rest),
  length-to_bytes 8 (length payload),
  take-append (to_bytes 8 (length payload)) (payload ++ rest) 8
      (sym (length-to_bytes 8 (length payload))),
  from_bytes-to_bytes 8 (length payload) fits,
  payload_round_lem (127 ∷ to_bytes 8 (length payload)) payload rest b0 10
      (omega (arith, length-to_bytes 8 (length payload))) h,
)

pub parse_round-server_frame :
    (b0 : ℕ) (payload rest : Bytes)
    → b0 < 256
    → Fits payload
    → parse_round (server_frame b0 payload ++ rest) 0
      ≡ frame (b0 % 16) payload (length (server_frame b0 payload))
unfolding server_frame plain_length
parse_round-server_frame b0 payload rest h fits = ground (
  arith,
  append_assoc (to_bytes 8 (length payload)) payload rest,
  length-append (to_bytes 8 (length payload)) payload,
  length-to_bytes 8 (length payload),
  short_round b0 payload rest h,
  medium_round b0 payload rest h,
  long_round b0 payload rest h fits,
)
