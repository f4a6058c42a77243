-- ===== src/H3/Replies.antt =====
-- The readers of a queue: none of them waits once the stream has come to its end, and a request puts the
-- response together again.
use nim_vortex.Prelude.{ℕ, ◌≡◌, sym, some, List, [], ◌∷◌, ◌++◌}
use nim_vortex.Prelude.Bytes.{Bytes}
use nim_vortex.Prelude.Ints.{ℤ}
use nim_vortex.H3.{
  Head, Item, head, data_item, end_item, err, queue_of, no_head, Client, QuicEvent,
  protocol_negotiated, stream_reset, connection_terminated, quic_data, reset_text, closed_text,
  quic_event_received,
}
use nim_vortex.Ws.{Parsed, parsed, assertion_error, spent, parse_ws}
use nim_vortex.Ws.Chunks.{Leaves, parse_ws-Leaves}
use nim_vortex.H3.Tunnel
use nim_vortex.H3.Tunnel.{Recv, received, refused, exhausted, if_frames, recv}
use nim_vortex.H3.Queues.{queue_of-put_self, queue_of-put_everywhere}
use nim_vortex.H3.Requests.{
  Reply, waiting, connection_error, replied, read_reply, stream, upload_status, ws_open,
}

abbrev pub Ends {ℓ} : {A : Type ℓ} → Reply A → Type 0
Ends waiting = ⊥
Ends (connection_error text) = Unit
Ends (replied a) = Unit

read_reply-Ends :
    (h : Head) (body text : Bytes) (q : List Item) → Ends (read_reply h body (q ++ err text ∷ []))
unfolding read_reply
read_reply-Ends h body text [] = tt
read_reply-Ends h body text (head h' ∷ q) = read_reply-Ends h' body text q
read_reply-Ends h body text (data_item d ∷ q) = read_reply-Ends h (body ++ d) text q
read_reply-Ends h body text (end_item ∷ q) = tt
read_reply-Ends h body text (err t ∷ q) = tt

stream-Ends : (text : Bytes) (q : List Item) → Ends (stream (q ++ err text ∷ [])).1
unfolding stream
stream-Ends text [] = tt
stream-Ends text (head h ∷ q) = stream-Ends text q
stream-Ends text (data_item d ∷ q) = stream-Ends text q
stream-Ends text (end_item ∷ q) = tt
stream-Ends text (err t ∷ q) = tt

upload_status-Ends :
    (st : ℤ) (text : Bytes) (q : List Item) → Ends (upload_status st (q ++ err text ∷ []))
unfolding upload_status
upload_status-Ends st text [] = tt
upload_status-Ends st text (head h ∷ q) = upload_status-Ends h.status text q
upload_status-Ends st text (data_item d ∷ q) = upload_status-Ends st text q
upload_status-Ends st text (end_item ∷ q) = tt
upload_status-Ends st text (err t ∷ q) = tt

ws_open-Ends : (text : Bytes) (q : List Item) → Ends (ws_open (q ++ err text ∷ []))
unfolding ws_open
ws_open-Ends text [] = tt
ws_open-Ends text (head h ∷ q) = tt
ws_open-Ends text (data_item d ∷ q) = ws_open-Ends text q
ws_open-Ends text (end_item ∷ q) = tt
ws_open-Ends text (err t ∷ q) = tt

-- `recv` of a tunnel returns a frame or raises.
abbrev pub Stops : Recv → Type 0
Stops (Tunnel.waiting buf) = ⊥
Stops (received f buf q) = Unit
Stops (Tunnel.connection_error text) = Unit
Stops refused = Unit
Stops exhausted = ⊥

if_frames-Stops :
    (p : Parsed) (buf : Bytes) (q : List Item) (otherwise : Recv)
    → Leaves buf p
    → Stops otherwise
    → Stops (if_frames p buf q otherwise)
unfolding if_frames
if_frames-Stops (parsed [] consumed) buf q otherwise l h = h
if_frames-Stops (parsed (f ∷ fs) consumed) buf q otherwise l h = tt
if_frames-Stops assertion_error buf q otherwise l h = tt
if_frames-Stops spent buf q otherwise l h = l

recv-Stops : (text buf : Bytes) (q : List Item) → Stops (recv buf (q ++ err text ∷ []))
unfolding recv
recv-Stops text buf [] = if_frames-Stops (parse_ws buf) buf _ _ (parse_ws-Leaves buf) tt
recv-Stops text buf (head h ∷ q) =
    if_frames-Stops (parse_ws buf) buf _ _ (parse_ws-Leaves buf) (recv-Stops text buf q)
recv-Stops text buf (data_item d ∷ q) =
    if_frames-Stops (parse_ws buf) buf _ _ (parse_ws-Leaves buf) (recv-Stops text (buf ++ d) q)
recv-Stops text buf (end_item ∷ q) = if_frames-Stops (parse_ws buf) buf _ _ (parse_ws-Leaves buf) tt
recv-Stops text buf (err t ∷ q) = if_frames-Stops (parse_ws buf) buf _ _ (parse_ws-Leaves buf) tt

-- The events that end the stream `sid` with an error.
abbrev pub Cuts : ℕ → QuicEvent → Type 0
Cuts sid (protocol_negotiated alpn es) = ⊥
Cuts sid (stream_reset i code) = sid ≡ i
Cuts sid (connection_terminated code reason ft) = Unit
Cuts sid (quic_data es) = ⊥

Cuts-queue_of :
    (sid : ℕ) (e : QuicEvent) (c : Client) (q : List Item)
    → Cuts sid e
    → queue_of sid c.queues ≡ some q
    → (text : Bytes) × (queue_of sid (quic_event_received e c).queues ≡ some (q ++ err text ∷ []))
unfolding quic_event_received
Cuts-queue_of sid (protocol_negotiated alpn es) c q k h = absurd k
Cuts-queue_of sid (stream_reset i code) c q k h =
    (reset_text code, rw (sym k) (queue_of-put_self sid (err (reset_text code)) c.queues q h))
Cuts-queue_of sid (connection_terminated code reason ft) c q k h = (
  closed_text code reason ft,
  queue_of-put_everywhere sid (err (closed_text code reason ft)) c.queues q h,
)
Cuts-queue_of sid (quic_data es) c q k h = absurd k

-- When the stream `sid` is reset or the connection is closed, its queue keeps what had come before with the
-- error behind it, and every wait on this queue comes to an end: in `request`, `stream` and `ws_open`, in
-- `recv` of a tunnel whatever its buffer holds, and in `upload` where it waits for the response, behind
-- its body.
pub quic_event_received-Ends :
    (sid : ℕ) (e : QuicEvent) (c : Client) (q : List Item)
    → Cuts sid e
    → queue_of sid c.queues ≡ some q
    → (text : Bytes) × (queue_of sid (quic_event_received e c).queues ≡ some (q ++ err text ∷ []))
      × Ends (read_reply no_head [] (q ++ err text ∷ []))
      × Ends (stream (q ++ err text ∷ [])).1
      × ((st : ℤ) → Ends (upload_status st (q ++ err text ∷ [])))
      × Ends (ws_open (q ++ err text ∷ []))
      × ((buf : Bytes) → Stops (recv buf (q ++ err text ∷ [])))
quic_event_received-Ends sid e c q k h =
    let (text, found) = Cuts-queue_of sid e c q k h in
    (
      text,
      found,
      read_reply-Ends no_head [] text q,
      stream-Ends text q,
      (λ st. upload_status-Ends st text q),
      ws_open-Ends text q,
      (λ buf. recv-Stops text buf q),
    )
