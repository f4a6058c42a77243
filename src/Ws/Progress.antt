-- ===== src/Ws/Progress.antt =====
-- The loop of `parse_ws` as one equation a frame, its bounds, and its behaviour on a buffer that
-- grows.
use Prim.Native.Nat.{bit_and, bit_or}
use nim_vortex.Prelude.{
  ℕ, zero, suc, ◌+◌, ◌-◌, ◌*◌, ◌^◌, ◌≤◌, ◌<◌, ◌≡◌, refl, sym, ap, ◌∙◌, List, [], ◌∷◌, ◌++◌,
  append-nil, append_assoc, length, drop, arith, length-append, length-drop, drop-drop,
  get_or-append_left, slice-append_left,
}
use nim_vortex.Prelude.Bytes.{Bytes, from_bytes}
use nim_vortex.Ws.{
  Round, stop, fault, frame, slice, byte, payload_round, length_round, parse_round, Parsed, parsed,
  assertion_error, spent, parse_loop, parse_ws,
}
use nim_vortex.Ws.Server.{shift, parse_round-drop}

-- What a round has found lies in the buffer and takes two bytes at least.
abbrev pub InBounds : ℕ → ℕ → Round → Type 0
InBounds n from stop = Unit
InBounds n from fault = Unit
InBounds n from (frame op payload next) = (from + 2 ≤ next) × (next ≤ n)

pub payload_round-InBounds :
    (buf : Bytes) (pos hdr ln : ℕ)
    → 2 ≤ hdr
    → InBounds (length buf) pos (payload_round buf pos hdr ln)
unfolding payload_round
payload_round-InBounds buf pos hdr ln h = ground arith

pub parse_round-InBounds : (buf : Bytes) (pos : ℕ) → InBounds (length buf) pos (parse_round buf pos)
unfolding parse_round length_round
parse_round-InBounds buf pos = ground (
  arith,
  payload_round-InBounds buf pos 4 (bit_or (byte buf (pos + 2) * 2 ^ 8) (byte buf (pos + 3))),
  payload_round-InBounds buf pos 10 (from_bytes (slice buf (pos + 2) (pos + 10))),
  payload_round-InBounds buf pos 2 (bit_and (byte buf (pos + 1)) 0x7f),
)

-- A round that did not stop for want of bytes does the same when more bytes follow.
abbrev pub Keeps : Round → Round → Type 0
Keeps stop r = Unit
Keeps fault r = r ≡ fault
Keeps (frame op payload next) r = r ≡ frame op payload next

payload_round-append :
    (buf more : Bytes) (hdr ln : ℕ)
    → 2 ≤ hdr
    → Keeps (payload_round buf 0 hdr ln) (payload_round (buf ++ more) 0 hdr ln)
unfolding payload_round
payload_round-append buf more hdr ln h = ground (
  arith,
  length-append buf more,
  get_or-append_left buf more 0 0,
  slice-append_left (0 + hdr + ln - (0 + hdr)) (0 + hdr) buf more,
)

pub parse_round-append :
    (buf more : Bytes) → Keeps (parse_round buf 0) (parse_round (buf ++ more) 0)
unfolding parse_round length_round
parse_round-append buf more = ground (
  arith,
  length-append buf more,
  get_or-append_left buf more 1 0,
  get_or-append_left buf more 2 0,
  get_or-append_left buf more 3 0,
  slice-append_left 8 2 buf more,
  payload_round-append buf more 4 (bit_or (byte buf 2 * 2 ^ 8) (byte buf 3)),
  payload_round-append buf more 10 (from_bytes (slice buf 2 10)),
  payload_round-append buf more 2 (bit_and (byte buf 1) 0x7f),
)

-- The result of a parse that began at position `n` with the frames `fs` already taken.
abbrev pub place : ℕ → List (ℕ × Bytes) → Parsed → Parsed
place n fs (parsed gs m) = parsed (fs ++ gs) (n + m)
place n fs assertion_error = assertion_error
place n fs spent = spent

pub place_nil : (r : Parsed) → place 0 [] r ≡ r
place_nil (parsed gs m) = ap (parsed gs) (omega arith)
place_nil assertion_error = refl
place_nil spent = refl

pub place-place :
    (n m : ℕ) (fs gs : List (ℕ × Bytes)) (r : Parsed)
    → place n fs (place m gs r) ≡ place (n + m) (fs ++ gs) r
place-place n m fs gs (parsed hs k) = ground (arith, append_assoc fs gs hs)
place-place n m fs gs assertion_error = refl
place-place n m fs gs spent = refl

-- What is left to do after the first round.
abbrev pub after_round : Bytes → Round → Parsed
after_round buf stop = parsed [] 0
after_round buf fault = assertion_error
after_round buf (frame op payload next) = place next ((op, payload) ∷ []) (parse_ws (drop next buf))

-- What a round does to the loop, by its outcome.
abbrev after_loop : ℕ → Bytes → ℕ → List (ℕ × Bytes) → Round → Parsed
after_loop fuel buf pos frames stop = parsed frames pos
after_loop fuel buf pos frames fault = assertion_error
after_loop fuel buf pos frames (frame op payload next) =
    parse_loop fuel buf next (frames ++ (op, payload) ∷ [])

parse_loop_round :
    (fuel : ℕ) (buf : Bytes) (pos : ℕ) (frames : List (ℕ × Bytes)) {r : Round}
    → parse_round buf pos ≡ r
    → parse_loop (suc fuel) buf pos frames ≡ after_loop fuel buf pos frames r
unfolding parse_loop
parse_loop_round fuel buf pos frames e = rw (e, parse_loop)

parse_ws_round :
    (buf : Bytes) {r : Round}
    → parse_round buf 0 ≡ r
    → parse_ws buf ≡ after_loop (length buf) buf 0 [] r
unfolding parse_ws
parse_ws_round buf e = parse_loop_round (length buf) buf 0 [] e

abbrev LoopPlaces : ℕ → Type 0
LoopPlaces bound =
    (fuel : ℕ) (buf : Bytes) (pos : ℕ) (frames : List (ℕ × Bytes))
    → pos ≤ length buf
    → length buf - pos < bound
    → length buf - pos < fuel
    → parse_loop fuel buf pos frames ≡ place pos frames (parse_ws (drop pos buf))

LoopPlaces-suc :
    {bound : ℕ}
    → LoopPlaces bound
    → (fuel : ℕ) (buf : Bytes) (pos : ℕ) (frames : List (ℕ × Bytes)) → pos ≤ length buf
    → length buf - pos < suc bound
    → length buf - pos < suc fuel
    → (r : Round) → parse_round (drop pos buf) 0 ≡ r
    → parse_loop (suc fuel) buf pos frames ≡ place pos frames (parse_ws (drop pos buf))
LoopPlaces-suc ih fuel buf pos frames inside small enough stop e =
    parse_loop_round fuel buf pos frames (shifted e)
    ∙ ground (arith, append-nil frames)
    ∙ ap (place pos frames) (sym (parse_ws_round (drop pos buf) e))
  where
    shifted : {r : Round} → parse_round (drop pos buf) 0 ≡ r → parse_round buf pos ≡ shift pos r
    shifted d = parse_round-drop buf pos inside ∙ ap (shift pos) d
LoopPlaces-suc ih fuel buf pos frames inside small enough fault e =
    parse_loop_round fuel buf pos frames (parse_round-drop buf pos inside ∙ ap (shift pos) e)
    ∙ ap (place pos frames) (sym (parse_ws_round (drop pos buf) e))
LoopPlaces-suc ih fuel buf pos frames inside small enough (frame op payload n) e =
    let found : InBounds (length (drop pos buf)) 0 (frame op payload n) =
      rw e at (parse_round-InBounds (drop pos buf) 0) in
    parse_loop_round fuel buf pos frames (parse_round-drop buf pos inside ∙ ap (shift pos) e)
    ∙ ih fuel buf (pos + n) (frames ++ (op, payload) ∷ []) (omega (arith, length-drop pos buf))
        (omega (arith, length-drop pos buf)) (omega (arith, length-drop pos buf))
    ∙ sym (place-place pos n frames ((op, payload) ∷ []) _)
    ∙ ap (place pos frames) (
        sym (
          parse_ws_round (drop pos buf) e
          ∙ ih (length (drop pos buf)) (drop pos buf) n ((op, payload) ∷ []) found.1
              (omega (arith, length-drop pos buf)) (omega (arith, length-drop pos buf))
          ∙ ap (λ (t : Bytes). place n ((op, payload) ∷ []) (parse_ws t))
              (drop-drop n pos buf (pos + n) refl)))

parse_loop-place : (bound : ℕ) → LoopPlaces bound
parse_loop-place zero fuel buf pos frames inside small enough = absurd (omega arith)
parse_loop-place (suc bound) zero buf pos frames inside small enough = absurd (omega arith)
parse_loop-place (suc bound) (suc fuel) buf pos frames inside small enough =
    LoopPlaces-suc (parse_loop-place bound) fuel buf pos frames inside small enough _ refl

-- `parse_ws` takes one frame and parses what is left of the buffer.
pub parse_ws_lem : (buf : Bytes) → parse_ws buf ≡ after_round buf (parse_round buf 0)
parse_ws_lem buf = go (parse_round buf 0) refl
  where
    go : (r : Round) → parse_round buf 0 ≡ r → parse_ws buf ≡ after_round buf r
    go stop e = parse_ws_round buf e
    go fault e = parse_ws_round buf e
    go (frame op payload n) e =
        let found : InBounds (length buf) 0 (frame op payload n) =
          rw e at (parse_round-InBounds buf 0) in
        parse_ws_round buf e
        ∙ parse_loop-place (suc (length buf)) (length buf) buf n ((op, payload) ∷ []) found.1
            (omega arith) (omega arith)
