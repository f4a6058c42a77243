-- ===== src/WsClient/Framing/Cuts.antt =====
-- `parse_ws` on the first bytes of a run of server frames.
use Prim.Native.Nat.{bit_and}
use nim_vortex.Prelude.{
  ℕ, zero, suc, ◌+◌, ◌-◌, ◌%◌, ◌≤◌, ◌<◌, ◌≡◌, ◌≢◌, inl, inr, refl, sym, ap, ◌∙◌, List, [], ◌∷◌,
  ◌++◌, map, append-nil, append_assoc, length, take, drop, ltb, leb, if◌then◌else◌, arith,
  Bool-cases, length-append, length-take, take-append-drop, ltb→lt, leb→le, get_or, get_or-take,
  take-append_right, length-drop, drop-append, take-append_left, drop-drop, get_or-drop,
}
use nim_vortex.Prelude.Bytes.{Bytes, bit_and_0x7f}
use nim_vortex.Ws.{
  Round, stop, fault, frame, byte, payload_round, Parsed, parsed, assertion_error, spent,
}
use nim_vortex.Ws
use nim_vortex.Ws.Server.{server_frame, plain_length, parse_round-drop, parse_round-server_frame}
use nim_vortex.Ws.Progress.{Keeps, parse_round-append, InBounds, parse_round-InBounds}
use nim_vortex.Ws.Stream.{encode, told}
use nim_vortex.WsClient.Framing.{length_round, parse_round, parse_loop, parse_ws}

-- But for the length code 127, a round is that of the other client's parser.
pub parse_round-eq :
    (buf : Bytes) (pos : ℕ)
    → bit_and (byte buf (pos + 1)) 0x7f ≢ 127
    → parse_round buf pos ≡ Ws.parse_round buf pos
unfolding parse_round length_round Ws.parse_round Ws.length_round
parse_round-eq buf pos h = ground arith

parse_round-short : (buf : Bytes) (pos : ℕ) → length buf < pos + 2 → parse_round buf pos ≡ stop
unfolding parse_round
parse_round-short buf pos h = ground arith

-- The frames that this client can read: each as its first byte and a payload below 65536 bytes.
abbrev pub AreShort : List (ℕ × Bytes) → Type 0
AreShort [] = Unit
AreShort ((b0, payload) ∷ fs) = (b0 < 256) × (length payload < 65536) × AreShort fs

code-server_frame :
    (b0 : ℕ) (payload rest : Bytes)
    → length payload < 65536
    → bit_and (byte (server_frame b0 payload ++ rest) 1) 0x7f ≢ 127
unfolding server_frame plain_length
code-server_frame b0 payload rest h =
    ground (arith, bit_and_0x7f (length payload), bit_and_0x7f 126 (omega arith))

-- The other parser waits on a part of a frame that is not all of it.
abbrev next_of : Round → ℕ
next_of stop = 0
next_of fault = 0
next_of (frame op payload next) = next

waits :
    (front back : Bytes) (b0 n : ℕ) (payload : Bytes) (r : Round)
    → Ws.parse_round (front ++ back) 0 ≡ frame (b0 % 16) payload n
    → length front < n
    → InBounds (length front) 0 r
    → Keeps r (Ws.parse_round (front ++ back) 0)
    → r ≡ stop
waits front back b0 n payload stop whole less inside keeps = refl
waits front back b0 n payload fault whole less inside keeps = cc
waits front back b0 n payload (frame op q m) whole less inside keeps =
    let behind : m ≡ n = ap next_of (sym keeps ∙ whole) in absurd (omega arith)

parse_round-take :
    (b0 n : ℕ) (payload : Bytes)
    → b0 < 256
    → length payload < 65536
    → n < length (server_frame b0 payload)
    → Ws.parse_round (take n (server_frame b0 payload)) 0 ≡ stop
parse_round-take b0 n payload h small less =
    let f = server_frame b0 payload in
    waits (take n f) (drop n f) b0 (length f) payload (Ws.parse_round (take n f) 0)
      (ap (λ (t : Bytes). Ws.parse_round t 0) (take-append-drop n f ∙ sym (append-nil f))
        ∙ parse_round-server_frame b0 payload [] h (omega arith))
      (omega (arith, length-take n f)) (parse_round-InBounds (take n f) 0)
      (parse_round-append (take n f) (drop n f))

module _ (buf : Bytes) (pos b0 : ℕ) (payload : Bytes) (inside : pos ≤ length buf) where
  parse_round-whole :
      (rest : Bytes)
      → drop pos buf ≡ server_frame b0 payload ++ rest
      → b0 < 256
      → length payload < 65536
      → parse_round buf pos ≡ frame (b0 % 16) payload (pos + length (server_frame b0 payload))
  parse_round-whole rest e h small =
      parse_round-eq buf pos
        (rw (← get_or-drop pos 1 buf 0 (pos + 1) refl, e) (code-server_frame b0 payload rest small))
      ∙ parse_round-drop buf pos inside
      ∙ rw (e, parse_round-server_frame b0 payload rest h (omega arith)) refl

  parse_round-part :
      (n : ℕ)
      → drop pos buf ≡ take n (server_frame b0 payload)
      → n < length (server_frame b0 payload)
      → b0 < 256
      → length payload < 65536
      → parse_round buf pos ≡ stop
  parse_round-part n e less h small = elim (Bool-cases (ltb (length buf) (pos + 2))) [
    | inl few ↦ parse_round-short buf pos (ltb→lt _ _ few)
    | inr enough ↦
        let f = server_frame b0 payload in
        let two : 1 < n =
          ground (arith, ap (λ (t : Bytes). length t) e, length-drop pos buf, length-take n f) in
        let code : get_or (drop pos buf) 1 0 ≡ get_or (f ++ []) 1 0 =
          rw (e, append-nil f) (get_or-take n 1 f 0 two) in
        parse_round-eq buf pos (
          rw (← get_or-drop pos 1 buf 0 (pos + 1) refl, code)
            (code-server_frame b0 payload [] small))
        ∙ parse_round-drop buf pos inside
        ∙ rw (e, parse_round-take b0 n payload h small less) refl
  ]

-- The frames of a run that lie within its first `n` bytes.
unfoldable pub whole : ℕ → List (ℕ × Bytes) → List (ℕ × Bytes)
whole n [] = []
whole n ((b0, payload) ∷ fs) =
    let size = length (server_frame b0 payload) in
    if leb size n then (b0, payload) ∷ whole (n - size) fs else []

abbrev step : ℕ → Bytes → ℕ → List (ℕ × Bytes) → Round → Parsed
step fuel buf pos frames stop = parsed frames pos
step fuel buf pos frames fault = assertion_error
step fuel buf pos frames (frame op payload next) =
    parse_loop fuel buf next (frames ++ (op, payload) ∷ [])

parse_loop-step :
    (fuel : ℕ) (buf : Bytes) (pos : ℕ) (frames : List (ℕ × Bytes)) {r : Round}
    → parse_round buf pos ≡ r
    → parse_loop (suc fuel) buf pos frames ≡ step fuel buf pos frames r
unfolding parse_loop
parse_loop-step fuel buf pos frames e = rw (e, parse_loop)

-- The loop from a position behind which the first bytes of a run stand.
abbrev Takes : ℕ → ℕ → Bytes → ℕ → List (ℕ × Bytes) → List (ℕ × Bytes) → Type 0
Takes n fuel buf pos acc fs =
    parse_loop fuel buf pos acc
    ≡ parsed (acc ++ map told (whole n fs)) (pos + length (encode (whole n fs)))

joined :
    (acc : List (ℕ × Bytes)) (x : ℕ × Bytes) (xs : List (ℕ × Bytes)) (pos : ℕ) (f g : Bytes)
    → parsed ((acc ++ x ∷ []) ++ xs) (pos + length f + length g)
      ≡ parsed (acc ++ x ∷ xs) (pos + length (f ++ g))
joined acc x xs pos f g =
    rw (append_assoc acc (x ∷ []) xs)
      (ap (parsed (acc ++ x ∷ xs)) (omega (arith, length-append f g)))

server_frame_pos : (b0 : ℕ) (payload : Bytes) → 0 < length (server_frame b0 payload)
unfolding server_frame
server_frame_pos b0 payload = omega arith

parse_loop-take :
    (fs : List (ℕ × Bytes)) (n fuel : ℕ) (buf : Bytes) (pos : ℕ) (acc : List (ℕ × Bytes))
    → AreShort fs
    → drop pos buf ≡ take n (encode fs)
    → pos ≤ length buf
    → length buf - pos < fuel
    → Takes n fuel buf pos acc fs
unfolding whole encode
parse_loop-take fs n zero buf pos acc short e inside enough = absurd (omega arith)
parse_loop-take [] n (suc fuel) buf pos acc short e inside enough =
    parse_loop-step fuel buf pos acc (parse_round-short buf pos few)
    ∙ rw (append-nil acc) (ap (parsed acc) (omega arith))
  where
    few : length buf < pos + 2
    few =
        ground
          (arith, ap (λ (t : Bytes). length t) e, length-drop pos buf, length-take n (encode []))
parse_loop-take ((b0, payload) ∷ fs) n (suc fuel) buf pos acc (h, small, short) e inside enough =
    let f = server_frame b0 payload in
    elim (Bool-cases (leb (length f) n)) [
      | inl fits ↦
          let rest = take (n - length f) (encode fs) in
          let here : drop pos buf ≡ f ++ rest =
            e ∙ take-append_right n f (encode fs) (leb→le _ _ fits) in
          let size : length buf - pos ≡ length f + length rest =
            sym (length-drop pos buf) ∙ ap (λ (t : Bytes). length t) here ∙ length-append f rest in
          let behind : drop (pos + length f) buf ≡ rest =
            sym (drop-drop (length f) pos buf (pos + length f) refl)
            ∙ ap (drop (length f)) here
            ∙ drop-append f rest (length f) refl in
          rw fits (
            parse_loop-step fuel buf pos acc
              (parse_round-whole buf pos b0 payload inside rest here h small)
            ∙ parse_loop-take fs (n - length f) fuel buf (pos + length f)
                (acc ++ (b0 % 16, payload) ∷ []) short behind (omega (arith, size))
                (omega (arith, size, server_frame_pos b0 payload))
            ∙ joined acc (b0 % 16, payload) (map told (whole (n - length f) fs)) pos f
                (encode (whole (n - length f) fs)))
      | inr cut ↦ rw cut (
          parse_loop-step fuel buf pos acc (
            parse_round-part buf pos b0 payload inside n
              (e ∙ take-append_left n f (encode fs) (ground arith)) (ground arith) h small)
          ∙ rw (append-nil acc) (ap (parsed acc) (omega arith)))
    ]

-- On the first `n` bytes of a run of frames with payloads below 65536 bytes, `parse_ws` takes exactly the
-- frames that lie within them, in order, each with its opcode and its payload.
pub parse_ws-take :
    (n : ℕ) (fs : List (ℕ × Bytes))
    → AreShort fs
    → parse_ws (take n (encode fs)) ≡ parsed (map told (whole n fs)) (length (encode (whole n fs)))
unfolding parse_ws
parse_ws-take n fs short =
    parse_loop-take fs n (suc (length (take n (encode fs)))) (take n (encode fs)) 0 [] short refl
      (omega arith) (omega arith)
    ∙ ap (parsed (map told (whole n fs))) (omega arith)
