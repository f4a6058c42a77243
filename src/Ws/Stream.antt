-- ===== src/Ws/Stream.antt =====
-- `parse_ws` on a run of server frames with any part of a further frame behind them.
use nim_vortex.Prelude.{
  ℕ, ◌%◌, ◌<◌, ◌≡◌, refl, sym, ap, ◌∙◌, List, [], ◌∷◌, ◌++◌, map, append-nil, append_assoc, length,
  arith, length-append, drop-append,
}
use nim_vortex.Prelude.Bytes.{Bytes}
use nim_vortex.Ws.{Round, stop, fault, frame, parse_round, parsed, parse_ws}
use nim_vortex.Ws.Server.{server_frame, Fits, parse_round-server_frame}
use nim_vortex.Ws.Progress.{
  InBounds, parse_round-InBounds, Keeps, parse_round-append, place, place-place, place_nil,
  after_round, parse_ws_lem,
}

-- The frames of a server, each as its first byte and its payload.
unfoldable pub encode : List (ℕ × Bytes) → Bytes
encode [] = []
encode ((b0, payload) ∷ fs) = server_frame b0 payload ++ encode fs

abbrev pub AreFrames : List (ℕ × Bytes) → Type 0
AreFrames [] = Unit
AreFrames ((b0, payload) ∷ fs) = (b0 < 256) × Fits payload × AreFrames fs

-- What the client is told of a frame: the opcode without the FIN and reserved bits.
abbrev pub told : ℕ × Bytes → ℕ × Bytes
told (b0, payload) = (b0 % 16, payload)

parse_ws-server_frame :
    (b0 : ℕ) (payload rest : Bytes)
    → b0 < 256
    → Fits payload
    → parse_ws (server_frame b0 payload ++ rest)
      ≡ place (length (server_frame b0 payload)) ((b0 % 16, payload) ∷ []) (parse_ws rest)
parse_ws-server_frame b0 payload rest h fits =
    parse_ws_lem (server_frame b0 payload ++ rest)
    ∙ rw (
      parse_round-server_frame b0 payload rest h fits,
      drop-append (server_frame b0 payload) rest (length (server_frame b0 payload)) refl,
    )

-- Whole frames at the front of the buffer are returned in order, each with its opcode and its
-- payload, for every payload length below 2 ^ 64; the rest is parsed as if it stood alone.
pub parse_ws-encode :
    (fs : List (ℕ × Bytes)) (rest : Bytes)
    → AreFrames fs
    → parse_ws (encode fs ++ rest) ≡ place (length (encode fs)) (map told fs) (parse_ws rest)
unfolding encode
parse_ws-encode [] rest h = sym (place_nil (parse_ws rest))
parse_ws-encode ((b0, payload) ∷ fs) rest (byte, fits, h) =
    ap parse_ws (append_assoc (server_frame b0 payload) (encode fs) rest)
    ∙ parse_ws-server_frame b0 payload (encode fs ++ rest) byte fits
    ∙ ap (place (length (server_frame b0 payload)) ((b0 % 16, payload) ∷ []))
        (parse_ws-encode fs rest h)
    ∙ place-place (length (server_frame b0 payload)) (length (encode fs)) ((b0 % 16, payload) ∷ [])
        (map told fs) (parse_ws rest)
    ∙ ap (λ (n : ℕ). place n (map told ((b0, payload) ∷ fs)) (parse_ws rest))
        (sym (length-append (server_frame b0 payload) (encode fs)))

abbrev next_of : Round → ℕ
next_of stop = 0
next_of fault = 0
next_of (frame op payload next) = next

-- The front of a frame is not a frame: the parse waits for the bytes that are missing.
pub parse_ws-partial :
    (b0 x : ℕ) (payload front back : Bytes)
    → b0 < 256
    → Fits payload
    → server_frame b0 payload ≡ front ++ (x ∷ back)
    → parse_ws front ≡ parsed [] 0
parse_ws-partial b0 x payload front back byte fits e =
    parse_ws_lem front
    ∙ go (parse_round front 0) (parse_round-InBounds front 0) (parse_round-append front (x ∷ back))
  where
    whole :
        parse_round (front ++ (x ∷ back)) 0 ≡ frame (b0 % 16) payload (length (front ++ (x ∷ back)))
    whole = rw (append-nil, e) at (parse_round-server_frame b0 payload [] byte fits)

    go :
        (r : Round)
        → InBounds (length front) 0 r
        → Keeps r (parse_round (front ++ (x ∷ back)) 0)
        → after_round front r ≡ parsed [] 0
    go stop inside keeps = refl
    go fault inside keeps = cc (whole)
    go (frame op q n) inside keeps =
        let behind : n ≡ length (front ++ (x ∷ back)) = ap next_of (sym keeps ∙ whole) in
        absurd (omega (arith, length-append front (x ∷ back)))
