-- ===== src/WsClient/Framing.antt =====
-- `ws_frame` and `parse_ws` of conformance/h3websocket/client.py: client frames with payloads below
-- 126 bytes, and server frames with a length field of 7 or 16 bits. The rounds of the loop share
-- their outcomes, the mask and the end of a round with the framing of the other HTTP/3 client.
pub mod Cuts
pub mod Ends
use Prim.Native.Nat.{bit_and, bit_or}
use nim_vortex.Prelude.{
  ℕ, zero, suc, ◌+◌, ◌*◌, ◌^◌, Bool, Option, none, some, List, [], ◌∷◌, ◌++◌, length, ltb, ◌==◌,
  if◌then◌else◌,
}
use nim_vortex.Prelude.Bytes.{Bytes}
use nim_vortex.Ws.{
  ws_mask, mask_from, Round, stop, fault, frame, byte, payload_round, Parsed, parsed,
  assertion_error, spent,
}

-- `ws_frame(opcode, payload, fin)`, or the AssertionError for a payload that is too long.
unfoldable pub ws_frame : ℕ → Bytes → Bool → Option Bytes
ws_frame opcode payload fin =
    if ltb (length payload) 126
    then some (
        bit_or (if fin then 0x80 else 0) opcode
        ∷ bit_or 0x80 (length payload)
        ∷ (ws_mask ++ mask_from 0 payload))
    else none

-- `break`, the failed `assert`, or a frame, once the length code is known.
unfoldable pub length_round : Bytes → ℕ → ℕ → Round
length_round buf pos ln =
    if ln == 126
    then (if ltb (length buf) (pos + 4)
        then stop
        else payload_round buf pos 4 (bit_or (byte buf (pos + 2) * 2 ^ 8) (byte buf (pos + 3))))
    else payload_round buf pos 2 ln

unfoldable pub parse_round : Bytes → ℕ → Round
parse_round buf pos =
    if ltb (length buf) (pos + 2)
    then stop
    else if bit_and (byte buf (pos + 1)) 0x80 == 0
    then length_round buf pos (bit_and (byte buf (pos + 1)) 0x7f)
    else fault

unfoldable pub parse_loop : ℕ → Bytes → ℕ → List (ℕ × Bytes) → Parsed
parse_loop zero buf pos frames = spent
parse_loop (suc fuel) buf pos frames = elim (parse_round buf pos) [
  | stop ↦ parsed frames pos
  | fault ↦ assertion_error
  | frame op payload next ↦ parse_loop fuel buf next (frames ++ (op, payload) ∷ [])
]

-- `parse_ws(buf)`: a round moves on by two bytes at least, so the buffer's length is fuel enough.
unfoldable pub parse_ws : Bytes → Parsed
parse_ws buf = parse_loop (suc (length buf)) buf 0 []
