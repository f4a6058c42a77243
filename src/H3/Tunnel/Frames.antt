-- ===== src/H3/Tunnel/Frames.antt =====
-- `recv` on the frames of a server: one at a time, and several at once.
use nim_vortex.Prelude.{
  ℕ, ◌<◌, ◌≡◌, refl, sym, ap, ◌∙◌, List, [], ◌∷◌, ◌++◌, map, append-nil, append_assoc, length, drop,
  arith, drop_all,
}
use nim_vortex.Prelude.Bytes.{Bytes}
use nim_vortex.Ws.{parsed, parse_ws, parse_round, parse_loop}
use nim_vortex.Ws.Server.{server_frame, Fits}
use nim_vortex.Ws.Stream.{encode, AreFrames, told, parse_ws-encode, parse_ws-partial}
use nim_vortex.H3.{Item, head, data_item, end_item, err}
use nim_vortex.H3.Tunnel.{received, if_frames, recv}

-- Chunks of bytes as they come out of the queue; an empty one is never put there.
unfoldable pub chunk_items : List Bytes → List Item
chunk_items [] = []
chunk_items (d ∷ ds) = data_item d ∷ chunk_items ds

unfoldable pub joined : List Bytes → Bytes
joined [] = []
joined (d ∷ ds) = d ++ joined ds

abbrev pub AreChunks : List Bytes → Type 0
AreChunks [] = Unit
AreChunks ([] ∷ ds) = ⊥
AreChunks ((x ∷ d) ∷ ds) = AreChunks ds

parse_ws_nil : parse_ws [] ≡ parsed [] 0
unfolding parse_ws parse_round parse_loop
parse_ws_nil = refl

parse_ws-frames :
    (fs : List (ℕ × Bytes))
    → AreFrames fs
    → parse_ws (encode fs) ≡ parsed (map told fs) (length (encode fs))
parse_ws-frames fs h =
    ap parse_ws (sym (append-nil (encode fs)))
    ∙ parse_ws-encode fs [] h
    ∙ rw (parse_ws_nil, append-nil (map told fs))
        (ap (λ (n : ℕ). parsed (map told fs) n) (omega arith))

recv-frames :
    (buf : Bytes) (f : ℕ × Bytes) (fs : List (ℕ × Bytes)) (n : ℕ) (q : List Item)
    → parse_ws buf ≡ parsed (f ∷ fs) n
    → recv buf q ≡ received f (drop n buf) q
unfolding recv if_frames
recv-frames buf f fs n [] e = rw (e, if_frames) refl
recv-frames buf f fs n (head h ∷ q) e = rw (e, if_frames) refl
recv-frames buf f fs n (data_item d ∷ q) e = rw (e, if_frames) refl
recv-frames buf f fs n (err text ∷ q) e = rw (e, if_frames) refl
recv-frames buf f fs n (end_item ∷ q) e = rw (e, if_frames) refl

-- When several frames stand in the buffer, `recv` returns the first and drops the bytes of all of them: the
-- frames behind the first are lost.
pub recv-encode :
    (f : ℕ × Bytes) (fs : List (ℕ × Bytes)) (q : List Item)
    → AreFrames (f ∷ fs)
    → recv (encode (f ∷ fs)) q ≡ received (told f) [] q
recv-encode f fs q h =
    recv-frames (encode (f ∷ fs)) (told f) (map told fs) _ q (parse_ws-frames (f ∷ fs) h)
    ∙ ap (λ b. received (told f) b q)
        (drop_all (length (encode (f ∷ fs))) (encode (f ∷ fs)) (omega arith))

-- The server's bytes may be cut into chunks anywhere: `recv` waits for the last of them, and then returns
-- the frame's opcode and payload and leaves nothing behind, in the buffer or in the queue.
pub recv-server_frame :
    (b0 : ℕ) (payload buf : Bytes) (ds : List Bytes)
    → b0 < 256
    → Fits payload
    → AreChunks ds
    → server_frame b0 payload ≡ buf ++ joined ds
    → recv buf (chunk_items ds) ≡ received (told (b0, payload)) [] []
unfolding recv chunk_items joined if_frames
recv-server_frame b0 payload buf [] byte fits a e =
    let whole : encode ((b0, payload) ∷ []) ≡ buf =
      unfold encode in (append-nil (server_frame b0 payload) ∙ e ∙ append-nil buf) in
    ap (λ b. recv b []) (sym whole) ∙ recv-encode (b0, payload) [] [] (byte, fits, tt)
recv-server_frame b0 payload buf ([] ∷ ds) byte fits a e = absurd a
recv-server_frame b0 payload buf ((x ∷ d) ∷ ds) byte fits a e =
    rw (parse_ws-partial b0 x payload buf (d ++ joined ds) byte fits e) (
      recv-server_frame b0 payload (buf ++ x ∷ d) ds byte fits a
        (e ∙ sym (append_assoc buf (x ∷ d) (joined ds))))
