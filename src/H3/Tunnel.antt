-- ===== src/H3/Tunnel.antt =====
-- `H3Ws` of conformance/stress/client/h3.py: the WebSocket frames that come out of a tunnel's queue.
pub mod Frames
use nim_vortex.Prelude.{
  ℕ, zero, suc, ◌+◌, ◌-◌, ◌*◌, ◌/◌, ◌%◌, ◌^◌, ◌≤◌, ◌<◌, min, max, ◌≡◌, ◌≢◌, ◌⊎◌, inl, inr, ◌↔◌,
  refl, sym, ap, ◌∙◌, Bool, true, false, not, ◌&&◌, ◌||◌, Option, none, some, List, [], ◌∷◌, ◌++◌,
  map, append-nil, append_assoc, length, get_elem?, get_or, take, drop, replicate, ltb, leb, ◌==◌,
  if◌then◌else◌, arith, ltb→lt, lt→ltb, leb→le, ==_iff, Bool-cases, Option-cases, length-append,
  length-take, length-drop, take-append-drop, take-append, drop-append, drop-nil, drop-drop,
  get_or-drop, get_or-append_left, drop-append_left, take-append_left, slice-append_left, drop_all,
}
use nim_vortex.Prelude.Bytes.{Bytes, codes}
use nim_vortex.Ws.{Parsed, parsed, assertion_error, spent, parse_ws}
use nim_vortex.H3.{Item, head, data_item, end_item, err}

-- How `recv` ends, with the buffer and the items that are left: it waits, returns a frame, or raises;
-- `exhausted` is the fuel of `parse_ws`.
pub data Recv : Type 0 where
  waiting : Bytes → Recv
  received : ℕ × Bytes → Bytes → List Item → Recv
  connection_error : Bytes → Recv
  refused : Recv
  exhausted : Recv

-- A parse of the buffer with a frame in it: `del self._buf[:consumed]` and the first of the frames.
unfoldable pub if_frames : Parsed → Bytes → List Item → Recv → Recv
if_frames (parsed [] consumed) buf q otherwise = otherwise
if_frames (parsed (f ∷ fs) consumed) buf q otherwise = received f (drop consumed buf) q
if_frames assertion_error buf q otherwise = refused
if_frames spent buf q otherwise = exhausted

-- `recv()`, from the buffer and the items still to come.
unfoldable pub recv : Bytes → List Item → Recv
recv buf [] = if_frames (parse_ws buf) buf [] (waiting buf)
recv buf (head h ∷ q) = if_frames (parse_ws buf) buf (head h ∷ q) (recv buf q)
recv buf (data_item d ∷ q) = if_frames (parse_ws buf) buf (data_item d ∷ q) (recv (buf ++ d) q)
recv buf (err text ∷ q) = if_frames (parse_ws buf) buf (err text ∷ q) (connection_error text)
recv buf (end_item ∷ q) =
    if_frames (parse_ws buf) buf (end_item ∷ q) (connection_error (codes "ws stream ended"))
