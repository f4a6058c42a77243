-- ===== src/WsClient/Framing/Ends.antt =====
-- `parse_ws` ends on every buffer.
use Prim.Native.Nat.{bit_and, bit_or}
use nim_vortex.Prelude.{
  ℕ, zero, suc, ◌+◌, ◌-◌, ◌*◌, ◌^◌, ◌≤◌, ◌<◌, ◌≡◌, refl, List, ◌∷◌, [], ◌++◌, length, arith,
}
use nim_vortex.Prelude.Bytes.{Bytes}
use nim_vortex.Ws.{Round, stop, fault, frame, byte, Parsed, parsed, assertion_error, spent}
use nim_vortex.Ws.Progress.{InBounds, payload_round-InBounds}
use nim_vortex.WsClient.Framing.{length_round, parse_round, parse_loop, parse_ws}

parse_round-InBounds : (buf : Bytes) (pos : ℕ) → InBounds (length buf) pos (parse_round buf pos)
unfolding parse_round length_round
parse_round-InBounds buf pos = ground (
  arith,
  payload_round-InBounds buf pos 4 (bit_or (byte buf (pos + 2) * 2 ^ 8) (byte buf (pos + 3))),
  payload_round-InBounds buf pos 2 (bit_and (byte buf (pos + 1)) 0x7f),
)

-- A result that lies in the buffer.
abbrev pub Ends : Bytes → Parsed → Type 0
Ends buf (parsed frames n) = n ≤ length buf
Ends buf assertion_error = Unit
Ends buf spent = ⊥

round-Ends :
    (fuel : ℕ) (buf : Bytes) (pos : ℕ) (frames : List (ℕ × Bytes)) (r : Round)
    → parse_round buf pos ≡ r
    → InBounds (length buf) pos r
    → ((op : ℕ) (payload : Bytes) (next : ℕ)
        → pos + 2 ≤ next
        → next ≤ length buf
        → Ends buf (parse_loop fuel buf next (frames ++ (op, payload) ∷ [])))
    → pos ≤ length buf
    → Ends buf (parse_loop (suc fuel) buf pos frames)
unfolding parse_loop
round-Ends fuel buf pos frames stop e inside ih at_most = rw (e, parse_loop) at_most
round-Ends fuel buf pos frames fault e inside ih at_most = rw (e, parse_loop) tt
round-Ends fuel buf pos frames (frame op payload next) e (from, to) ih at_most =
    rw (e, parse_loop) (ih op payload next from to)

parse_loop-Ends :
    (fuel : ℕ) (buf : Bytes) (pos : ℕ) (frames : List (ℕ × Bytes))
    → pos ≤ length buf
    → length buf - pos < fuel
    → Ends buf (parse_loop fuel buf pos frames)
parse_loop-Ends zero buf pos frames inside enough = absurd (omega arith)
parse_loop-Ends (suc fuel) buf pos frames inside enough =
    round-Ends fuel buf pos frames (parse_round buf pos) refl (parse_round-InBounds buf pos)
      (λ op payload next from to.
        parse_loop-Ends fuel buf next (frames ++ (op, payload) ∷ []) to (omega arith))
      inside

pub parse_ws-Ends : (buf : Bytes) → Ends buf (parse_ws buf)
unfolding parse_ws
parse_ws-Ends buf = parse_loop-Ends (suc (length buf)) buf 0 [] (omega arith) (omega arith)
