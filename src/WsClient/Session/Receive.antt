-- ===== src/WsClient/Session/Receive.antt =====
-- `recv_ws` on a frame of the server whose bytes are cut anywhere and come among other events.
pub mod Events
pub mod Wakes
use nim_vortex.Prelude.{
  ℕ, zero, suc, ◌%◌, ◌<◌, ◌≡◌, ◌≢◌, ◌⊎◌, inl, inr, refl, sym, ap, ◌∙◌, Bool, true, false, Option,
  none, some, List, [], ◌∷◌, ◌++◌, append-nil, append_assoc, length, take, drop, leb, ◌==◌,
  if◌then◌else◌, arith, Bool-cases, length-append, take_all, take-append, drop_all,
}
use nim_vortex.Prelude.Bytes.{Bytes}
use nim_vortex.Ws.{parsed}
use nim_vortex.Ws.Server.{server_frame}
use nim_vortex.Ws.Stream.{encode}
use nim_vortex.WsClient.Framing.{parse_ws}
use nim_vortex.WsClient.Framing.Cuts.{whole, parse_ws-take}
use nim_vortex.WsClient.Session.{
  Event, headers_received, data_received, Batch, Client, is_own, on_event, on_events, on_stop,
  quic_event_received, receive, wait_for, Result, returned, recv_loop, recv_ws,
}
use nim_vortex.WsClient.Session.Receive.Events.{
  event_data, events_data, batch_data, QuietEvents, IsQuiet, Carries, Carries-trans, Carries-none,
  Carries-receive,
}
use nim_vortex.WsClient.Session.Receive.Wakes.{Delivers, Woken, wait_for-Woken}

-- The buffer is the front of the frame, and the rest is still to come.
parse_ws-front :
    (b0 : ℕ) (payload buf d : Bytes)
    → b0 < 256
    → length payload < 65536
    → server_frame b0 payload ≡ buf ++ d
    → d ≢ []
    → parse_ws buf ≡ parsed [] 0
unfolding whole encode
parse_ws-front b0 payload buf d h small e some_left =
    let f = server_frame b0 payload in
    ap parse_ws (
      sym (take-append buf d (length buf) refl)
      ∙ ap (take (length buf)) (sym e ∙ sym (append-nil f)))
    ∙ parse_ws-take (length buf) ((b0, payload) ∷ []) (h, small, tt)
    ∙ rw more refl
  where
    pos_of : (xs : Bytes) → xs ≢ [] → 0 < length xs
    pos_of [] n = absurd (n refl)
    pos_of (x ∷ xs) n = omega arith

    more : leb (length (server_frame b0 payload)) (length buf) ≡ false
    more = ground (arith, ap (λ (t : Bytes). length t) e, length-append buf d, pos_of d some_left)

parse_ws-all :
    (b0 : ℕ) (payload : Bytes)
    → b0 < 256
    → length payload < 65536
    → parse_ws (server_frame b0 payload)
      ≡ parsed ((b0 % 16, payload) ∷ []) (length (server_frame b0 payload))
unfolding whole encode
parse_ws-all b0 payload h small =
    let f = server_frame b0 payload in
    let fits : leb (length f) (length f) ≡ true = ground arith in
    ap parse_ws
      (sym (append-nil f) ∙ sym (take_all (length f) (f ++ []) (omega (arith, length-append f []))))
    ∙ parse_ws-take (length f) ((b0, payload) ∷ []) (h, small, tt)
    ∙ rw (fits, append-nil f) refl

-- The state behind a frame: it is taken from the buffer, and nothing else has been heard on the stream.
pub record Behind (sid : ℕ) (c c' : Client) : Type 0 where
  pub own : c'.sid ≡ some sid
  pub same_status : c'.status ≡ c.status
  pub same_headers : c'.headers ≡ c.headers
  pub same_wire : c'.wire ≡ c.wire
  pub empty : c'.buffer ≡ []

recv_loop-parsed :
    (fuel : ℕ) (bs : List Batch) (c : Client) (f : ℕ × Bytes) (n : ℕ)
    → parse_ws c.buffer ≡ parsed (f ∷ []) n
    → recv_loop (suc fuel) 1 bs c ≡ returned (f ∷ [], record c { buffer = drop n c.buffer }, bs)
unfolding recv_loop
recv_loop-parsed fuel bs c f n e = rw (e, recv_loop) refl

recv_loop-waits :
    (fuel : ℕ) (bs bs' : List Batch) (c c' : Client)
    → parse_ws c.buffer ≡ parsed [] 0
    → wait_for (λ k. k.got_data) bs (record c { got_data = false }) ≡ some (c', bs')
    → recv_loop (suc fuel) 1 bs c ≡ recv_loop fuel 1 bs' c'
unfolding recv_loop
recv_loop-waits fuel bs bs' c c' e w = rw (e, w, recv_loop) refl

-- What `recv_ws` does on the frame.
abbrev pub Receives :
    ℕ → ℕ × Bytes → Client → List Batch → Result (List (ℕ × Bytes) × Client × List Batch) → Type 0
Receives sid f c rest r = (c' : Client) × (r ≡ returned (f ∷ [], c', rest)) × Behind sid c c'

recv_loop-frame :
    (fuel sid b0 : ℕ) (payload d : Bytes) (bs rest : List Batch) (c : Client)
    → b0 < 256
    → length payload < 65536
    → c.sid ≡ some sid
    → server_frame b0 payload ≡ c.buffer ++ d
    → Delivers sid d bs
    → length bs < fuel
    → Receives sid (b0 % 16, payload) c rest (recv_loop fuel 1 (bs ++ rest) c)
recv_loop-frame zero sid b0 payload d bs rest c h small own e del enough = absurd (omega arith)
recv_loop-frame (suc fuel) sid b0 payload d [] rest c h small own e del enough =
    let all : c.buffer ≡ server_frame b0 payload =
      sym (append-nil c.buffer) ∙ ap (λ (t : Bytes). c.buffer ++ t) (sym del) ∙ sym e in
    (
      record c { buffer = drop (length (server_frame b0 payload)) c.buffer },
      recv_loop-parsed fuel rest c (b0 % 16, payload) (length (server_frame b0 payload))
          (ap parse_ws all ∙ parse_ws-all b0 payload h small),
      record {
        own = own;
        same_status = refl;
        same_headers = refl;
        same_wire = refl;
        empty =
            ap (drop (length (server_frame b0 payload))) all
            ∙ drop_all (length (server_frame b0 payload)) (server_frame b0 payload) (omega arith);
      },
    )
recv_loop-frame (suc fuel) sid b0 payload d (b ∷ bs) rest c h small own e (q, left, more) enough =
    let c0 = record c { got_data = false } in
    let (c', bs', d1, d2, woke, k, split, later, less) =
      wait_for-Woken sid d (b ∷ bs) rest c0 own refl left (q, left, more) in
    let cut : server_frame b0 payload ≡ c'.buffer ++ d2 =
      e
      ∙ ap (λ (t : Bytes). c.buffer ++ t) split
      ∙ sym (append_assoc c.buffer d1 d2)
      ∙ ap (λ (t : Bytes). t ++ d2) (sym k.grown) in
    let (c'', done, behind) =
      recv_loop-frame fuel sid b0 payload d2 bs' rest c' h small k.own cut later (omega arith) in
    (
      c'',
      recv_loop-waits fuel ((b ∷ bs) ++ rest) (bs' ++ rest) c c'
            (parse_ws-front b0 payload c.buffer d h small e left) woke
          ∙ done,
      record {
        own = behind.own;
        same_status = behind.same_status ∙ k.same_status;
        same_headers = behind.same_headers ∙ k.same_headers;
        same_wire = behind.same_wire ∙ k.same_wire;
        empty = behind.empty;
      },
    )

-- The bytes of a frame may be cut into DATA events anywhere, may come in any batches, and among the events
-- of other streams: `recv_ws()` waits for the last of them and returns the frame's opcode and payload. It
-- leaves the status and the headers as they were, nothing in the buffer, and later batches unread. Some of
-- the frame may have come before the call; its payload has fewer than 65536 bytes.
pub recv_ws-server_frame :
    (sid b0 : ℕ) (payload d : Bytes) (bs rest : List Batch) (c : Client)
    → b0 < 256
    → length payload < 65536
    → c.sid ≡ some sid
    → server_frame b0 payload ≡ c.buffer ++ d
    → Delivers sid d bs
    → Receives sid (b0 % 16, payload) c rest (recv_ws 1 (bs ++ rest) c)
unfolding recv_ws
recv_ws-server_frame sid b0 payload d bs rest c h small own e del =
    recv_loop-frame (suc (length (bs ++ rest))) sid b0 payload d bs rest c h small own e del
      (omega (arith, length-append bs rest))
