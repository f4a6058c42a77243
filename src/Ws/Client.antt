-- ===== src/Ws/Client.antt =====
-- `ws_frame` against an independent decoder of client frames (RFC 6455, 5.2 and 5.3), which reads
-- the masking key from the frame.
use Prim.Native.Nat.{bit_and, bit_or, bit_xor}
use nim_vortex.Prelude.{
  ℕ, zero, suc, ◌+◌, ◌/◌, ◌%◌, ◌^◌, ◌≤◌, ◌<◌, ◌≡◌, inl, inr, refl, sym, ap, ◌∙◌, Bool, true, false,
  Option, none, some, [], ◌∷◌, ◌++◌, append_assoc, length, get_or, take, drop, ltb, leb, ◌==◌,
  if◌then◌else◌, arith, ltb→lt, Bool-cases, length-append, take-append, drop-append,
}
use nim_vortex.Prelude.Bytes.{
  Bytes, AreBytes, from_bytes, to_bytes, length-to_bytes, from_bytes-to_bytes, from_bytes_two,
  bit_and_0x80, bit_and_0xff, bit_or_0x80, zero-bit_or, bit_xor_twice,
}
use nim_vortex.Ws.{
  ws_mask, mask_from, masked_length, ws_frame, parse_ws, assertion_error, parse_round,
}
use nim_vortex.Ws.Server.{Fits}
use nim_vortex.Ws.Progress.{parse_ws_lem}

-- FIN, the opcode, the payload, and what follows the frame.
abbrev pub Decoded : Type 0
Decoded = Bool × ℕ × Bytes × Bytes

pub unmask : Bytes → ℕ → Bytes → Bytes
unmask key i [] = []
unmask key i (b ∷ bs) = bit_xor b (get_or key (i % 4) 0) ∷ unmask key (i + 1) bs

pub decode_payload : Bool → ℕ → ℕ → Bytes → Option Decoded
decode_payload fin op n s =
    if ltb (length s) (4 + n)
    then none
    else some (fin, op, unmask (take 4 s) 0 (take n (drop 4 s)), drop n (drop 4 s))

pub decode_length : Bool → ℕ → ℕ → Bytes → Option Decoded
decode_length fin op n s =
    if n == 126
    then decode_payload fin op (from_bytes (take 2 s)) (drop 2 s)
    else if n == 127
    then decode_payload fin op (from_bytes (take 8 s)) (drop 8 s)
    else decode_payload fin op n s

-- A frame with no masking key is no client frame.
pub decode_client : Bytes → Option Decoded
decode_client [] = none
decode_client (b0 ∷ []) = none
decode_client (b0 ∷ b1 ∷ s) =
    if ltb b1 128 then none else decode_length (leb 128 b0) (b0 % 16) (b1 % 128) s

mask_byte-lt : (i : ℕ) → get_or ws_mask i 0 < 256
mask_byte-lt zero = omega arith
mask_byte-lt (suc zero) = omega arith
mask_byte-lt (suc (suc zero)) = omega arith
mask_byte-lt (suc (suc (suc zero))) = omega arith
mask_byte-lt (suc (suc (suc (suc i)))) = omega arith

unmask-mask_from : (i : ℕ) (bs : Bytes) → AreBytes bs → unmask ws_mask i (mask_from i bs) ≡ bs
unfolding unmask mask_from
unmask-mask_from i [] h = refl
unmask-mask_from i (b ∷ bs) (hb, h) = rw (
  bit_xor_twice b (get_or ws_mask (i % 4) 0) hb (mask_byte-lt (i % 4)),
  unmask-mask_from (i + 1) bs h,
)

length-mask_from : (i : ℕ) (bs : Bytes) → length (mask_from i bs) ≡ length bs
unfolding mask_from
length-mask_from i [] = refl
length-mask_from i (b ∷ bs) = ap suc (length-mask_from (i + 1) bs)

decode_payload_lem :
    (fin : Bool) (op : ℕ) (payload rest : Bytes)
    → AreBytes payload
    → decode_payload fin op (length payload) (ws_mask ++ (mask_from 0 payload ++ rest))
      ≡ some (fin, op, payload, rest)
unfolding decode_payload
decode_payload_lem fin op payload rest h = ground (
  arith,
  length-append (mask_from 0 payload) rest,
  length-mask_from 0 payload,
  unmask-mask_from 0 payload h,
  take-append (mask_from 0 payload) rest (length payload) (sym (length-mask_from 0 payload)),
  drop-append (mask_from 0 payload) rest (length payload) (sym (length-mask_from 0 payload)),
)

-- The first byte holds FIN and the opcode.
first_byte-lem :
    (fin : Bool) (op : ℕ)
    → op < 16
    → (leb 128 (bit_or (if fin then 0x80 else 0) op) ≡ fin)
      × (bit_or (if fin then 0x80 else 0) op % 16 ≡ op)
first_byte-lem true op h = ground (arith, bit_or_0x80 op (omega arith))
first_byte-lem false op h = ground (arith, zero-bit_or op (omega arith))

short_length :
    (fin : Bool) (op b0 : ℕ) (payload rest : Bytes)
    → AreBytes payload
    → leb 128 b0 ≡ fin
    → b0 % 16 ≡ op
    → length payload < 126
    → decode_client (b0 ∷ bit_or 0x80 (length payload) ∷ (ws_mask ++ (mask_from 0 payload ++ rest)))
      ≡ some (fin, op, payload, rest)
unfolding decode_client decode_length
short_length fin op b0 payload rest h f o lt =
    ground
      (arith, bit_or_0x80 (length payload) (omega arith), decode_payload_lem fin op payload rest h)

medium_length :
    (fin : Bool) (op b0 : ℕ) (payload rest : Bytes)
    → AreBytes payload
    → leb 128 b0 ≡ fin
    → b0 % 16 ≡ op
    → length payload < 65536
    → decode_client (
        b0
        ∷ 254
        ∷ bit_and (length payload / 2 ^ 8) 0xff
        ∷ bit_and (length payload) 0xff
        ∷ (ws_mask ++ (mask_from 0 payload ++ rest)))
      ≡ some (fin, op, payload, rest)
unfolding decode_client decode_length
medium_length fin op b0 payload rest h f o lt = ground (
  arith,
  bit_and_0xff (length payload / 2 ^ 8) (omega arith),
  bit_and_0xff (length payload) (omega arith),
  from_bytes_two (bit_and (length payload / 2 ^ 8) 0xff) (bit_and (length payload) 0xff),
  decode_payload_lem fin op payload rest h,
)

long_length :
    (fin : Bool) (op b0 : ℕ) (payload rest : Bytes)
    → AreBytes payload
    → leb 128 b0 ≡ fin
    → b0 % 16 ≡ op
    → Fits payload
    → decode_client
        (b0 ∷ 255 ∷ (to_bytes 8 (length payload) ++ (ws_mask ++ (mask_from 0 payload ++ rest))))
      ≡ some (fin, op, payload, rest)
unfolding decode_client decode_length
long_length fin op b0 payload rest h f o fits = ground (
  arith,
  take-append (to_bytes 8 (length payload)) (ws_mask ++ (mask_from 0 payload ++ rest)) 8
      (sym (length-to_bytes 8 (length payload))),
  drop-append (to_bytes 8 (length payload)) (ws_mask ++ (mask_from 0 payload ++ rest)) 8
      (sym (length-to_bytes 8 (length payload))),
  from_bytes-to_bytes 8 (length payload) fits,
  decode_payload_lem fin op payload rest h,
)

-- `ws_frame` writes a frame that a server decodes to the same FIN, opcode and payload, leaving what
-- follows it, for an opcode below 16, payload bytes below 256, and a length below 2 ^ 64.
pub decode_client-ws_frame :
    (op : ℕ) (payload : Bytes) (fin : Bool) (rest : Bytes)
    → op < 16
    → AreBytes payload
    → Fits payload
    → decode_client (ws_frame op payload fin ++ rest) ≡ some (fin, op, payload, rest)
unfolding ws_frame masked_length
decode_client-ws_frame op payload fin rest h bytes fits = ground (
  arith,
  append_assoc (to_bytes 8 (length payload)) (ws_mask ++ mask_from 0 payload) rest,
  short_length fin op (bit_or (if fin then 0x80 else 0) op) payload rest bytes
      (first_byte-lem fin op h).0 (first_byte-lem fin op h).1,
  medium_length fin op (bit_or (if fin then 0x80 else 0) op) payload rest bytes
      (first_byte-lem fin op h).0 (first_byte-lem fin op h).1,
  long_length fin op (bit_or (if fin then 0x80 else 0) op) payload rest bytes
      (first_byte-lem fin op h).0 (first_byte-lem fin op h).1 fits,
)

masked_round :
    (b0 b1 : ℕ) (s : Bytes) → 128 ≤ b1 → b1 < 256 → parse_ws (b0 ∷ b1 ∷ s) ≡ assertion_error
unfolding parse_round
masked_round b0 b1 s h lt = parse_ws_lem (b0 ∷ b1 ∷ s) ∙ ground (arith, bit_and_0x80 b1 lt)

-- The client's own frames are masked, so `parse_ws` refuses each of them, whatever follows.
pub parse_ws-ws_frame :
    (op : ℕ) (payload : Bytes) (fin : Bool) (rest : Bytes)
    → parse_ws (ws_frame op payload fin ++ rest) ≡ assertion_error
unfolding ws_frame masked_length
parse_ws-ws_frame op payload fin rest = elim (Bool-cases (ltb (length payload) 126)) [
  | inl small ↦
      let masked : bit_or 0x80 (length payload) ≡ 128 + length payload =
        bit_or_0x80 (length payload) (omega (arith, ltb→lt _ _ small)) in
      rw small (masked_round _ _ _ (omega arith) (omega (arith, ltb→lt _ _ small)))
  | inr large ↦ rw large (elim (Bool-cases (ltb (length payload) 65536)) [
    | inl medium ↦ rw medium (masked_round _ 254 _ (omega arith) (omega arith))
    | inr long ↦ rw long (masked_round _ 255 _ (omega arith) (omega arith))
  ])
]
