-- ===== src/Ws.antt =====
-- The WebSocket framing of conformance/stress/client/h3.py: `ws_frame` writes a client frame, and
-- `parse_ws` takes complete server frames off a receive buffer. A `bytes` or `bytearray` is a list
-- of numbers below 256; an index into the buffer is a position counted from its start.
pub mod Server
pub mod Progress
pub mod Chunks
pub mod Reads
pub mod Stream
pub mod Client
pub mod Tests
use Prim.Native.Nat.{bit_and, bit_or, bit_xor}
use nim_vortex.Prelude.{
  ℕ, zero, suc, ◌+◌, ◌-◌, ◌*◌, ◌/◌, ◌%◌, ◌^◌, Bool, true, false, List, [], ◌∷◌, ◌++◌, length,
  get_or, take, drop, ltb, ◌==◌, if◌then◌else◌,
}
use nim_vortex.Prelude.Bytes.{Bytes, from_bytes, to_bytes}

-- OP_TEXT, OP_BINARY, OP_CLOSE, OP_PING, OP_PONG
abbrev pub op_text : ℕ
op_text = 0x1

abbrev pub op_binary : ℕ
op_binary = 0x2

abbrev pub op_close : ℕ
op_close = 0x8

abbrev pub op_ping : ℕ
op_ping = 0x9

abbrev pub op_pong : ℕ
op_pong = 0xA

-- `_WS_MASK`
abbrev pub ws_mask : Bytes
ws_mask = 0x21 ∷ 0x43 ∷ 0x65 ∷ 0x87 ∷ []

-- `payload[i] ^ _WS_MASK[i % 4]` for the indices from `i` on
unfoldable pub mask_from : ℕ → Bytes → Bytes
mask_from i [] = []
mask_from i (b ∷ bs) = bit_xor b (get_or ws_mask (i % 4) 0) ∷ mask_from (i + 1) bs

-- The length field behind the first byte, with the mask bit set: 7, 16 or 64 bits.
unfoldable pub masked_length : ℕ → Bytes
masked_length n =
    if ltb n 126
    then bit_or 0x80 n ∷ []
    else if ltb n 65536
    then bit_or 0x80 126 ∷ bit_and (n / 2 ^ 8) 0xff ∷ bit_and n 0xff ∷ []
    else bit_or 0x80 127 ∷ to_bytes 8 n

-- `ws_frame(opcode, payload, fin)`
unfoldable pub ws_frame : ℕ → Bytes → Bool → Bytes
unfolding masked_length mask_from
ws_frame opcode payload fin =
    bit_or (if fin then 0x80 else 0) opcode
    ∷ (masked_length (length payload) ++ (ws_mask ++ mask_from 0 payload))

-- What one round of the loop in `parse_ws` does: `break`, a failed `assert`, or a frame with its
-- opcode, its payload and the position behind it.
pub data Round : Type 0 where
  stop : Round
  fault : Round
  frame : ℕ → Bytes → ℕ → Round

-- `buf[from:to]`
abbrev pub slice : Bytes → ℕ → ℕ → Bytes
slice buf from to = take (to - from) (drop from buf)

-- `buf[i]`; every read in `parse_ws` stands behind the test that `i` is in range
abbrev pub byte : Bytes → ℕ → ℕ
byte buf i = get_or buf i 0

-- The end of a round, once the header size and the payload length are known.
unfoldable pub payload_round : Bytes → ℕ → ℕ → ℕ → Round
payload_round buf pos hdr ln =
    if ltb (length buf) (pos + hdr + ln)
    then stop
    else frame (bit_and (byte buf pos) 0x0f) (slice buf (pos + hdr) (pos + hdr + ln))
        (pos + hdr + ln)

unfoldable pub length_round : Bytes → ℕ → ℕ → Round
length_round buf pos ln =
    if ln == 126
    then (if ltb (length buf) (pos + 4)
        then stop
        else payload_round buf pos 4 (bit_or (byte buf (pos + 2) * 2 ^ 8) (byte buf (pos + 3))))
    else if ln == 127
    then (if ltb (length buf) (pos + 10)
        then stop
        else payload_round buf pos 10 (from_bytes (slice buf (pos + 2) (pos + 10))))
    else payload_round buf pos 2 ln

unfoldable pub parse_round : Bytes → ℕ → Round
parse_round buf pos =
    if ltb (length buf) (pos + 2)
    then stop
    else if bit_and (byte buf (pos + 1)) 0x80 == 0
    then length_round buf pos (bit_and (byte buf (pos + 1)) 0x7f)
    else fault

-- `(frames, consumed)`, or the AssertionError; `spent` means that the fuel ran out.
pub data Parsed : Type 0 where
  parsed : List (ℕ × Bytes) → ℕ → Parsed
  assertion_error : Parsed
  spent : Parsed

unfoldable pub parse_loop : ℕ → Bytes → ℕ → List (ℕ × Bytes) → Parsed
parse_loop zero buf pos frames = spent
parse_loop (suc fuel) buf pos frames = elim (parse_round buf pos) [
  | stop ↦ parsed frames pos
  | fault ↦ assertion_error
  | frame op payload next ↦ parse_loop fuel buf next (frames ++ (op, payload) ∷ [])
]

-- `parse_ws(buf)`: a round moves on by two bytes at least, so the buffer's length is fuel enough.
unfoldable pub parse_ws : Bytes → Parsed
parse_ws buf = parse_loop (suc (length buf)) buf 0 []
