-- ===== src/H3.antt =====
-- The HTTP/3 client of conformance/stress/client/h3.py: one queue for each open stream, which the
-- connection's events fill and a request reads. aioquic's part comes in as arguments: the stream ids it
-- hands out and the HTTP/3 events it makes of a QUIC event. A queue is the list of the items not yet
-- read; texts are their character codes.
pub mod Queues
pub mod Requests
pub mod Replies
pub mod Responses
pub mod Tunnel
pub mod Uploads
pub mod Session
pub mod Tests
use nim_vortex.Prelude.{
  ℕ, zero, suc, ◌+◌, ◌-◌, ◌*◌, ◌/◌, ◌%◌, ◌^◌, ◌≤◌, ◌<◌, min, max, ◌≡◌, ◌≢◌, ◌⊎◌, inl, inr, ◌↔◌,
  refl, sym, ap, ◌∙◌, Bool, true, false, not, ◌&&◌, ◌||◌, Option, none, some, List, [], ◌∷◌, ◌++◌,
  map, append-nil, append_assoc, length, get_elem?, get_or, take, drop, replicate, ltb, leb, ◌==◌,
  if◌then◌else◌, arith, ltb→lt, lt→ltb, leb→le, ==_iff, Bool-cases, Option-cases, length-append,
  length-take, length-drop, take-append-drop, take-append, drop-append, drop-nil, drop-drop,
  get_or-drop, get_or-append_left, drop-append_left, take-append_left, slice-append_left, drop_all,
}
use nim_vortex.Prelude.Bytes.{Bytes, codes, equal}
use nim_vortex.Prelude.Text.{lower, strip, show, starts_with}
use nim_vortex.Prelude.Ints.{ℤ, pos, negsuc, int_of_bytes, decode_ascii}

-- What `_on_h3` reads from the headers: the status, the content-encoding and the content-type.
pub record Head : Type 0 where
  pub status : ℤ
  pub enc : Option Bytes
  pub ct : Bytes

-- ("h", head), ("d", data), ("end", None) and ("err", text)
pub data Item : Type 0 where
  head : Head → Item
  data_item : Bytes → Item
  end_item : Item
  err : Bytes → Item

abbrev pub Queues : Type 0
Queues = List (ℕ × List Item)

-- `self._queues.get(sid)`
unfoldable pub queue_of : ℕ → Queues → Option (List Item)
queue_of sid [] = none
queue_of sid ((i, q) ∷ qs) = if sid == i then some q else queue_of sid qs

-- `q.put_nowait(item)` on the queue of `sid`, if there is one
unfoldable pub put : ℕ → Item → Queues → Queues
put sid item [] = []
put sid item ((i, q) ∷ qs) = if sid == i then (i, q ++ item ∷ []) ∷ qs else (i, q) ∷ put sid item qs

unfoldable pub put_all : ℕ → List Item → Queues → Queues
put_all sid [] qs = qs
put_all sid (item ∷ items) qs = put_all sid items (put sid item qs)

-- The loop over `self._queues.values()` when the connection is closed.
unfoldable pub put_everywhere : Item → Queues → Queues
put_everywhere item [] = []
put_everywhere item ((i, q) ∷ qs) = (i, q ++ item ∷ []) ∷ put_everywhere item qs

-- `self._queues.pop(sid, None)`
unfoldable pub pop : ℕ → Queues → Queues
pop sid [] = []
pop sid ((i, q) ∷ qs) = if sid == i then qs else (i, q) ∷ pop sid qs

-- `self._queues[sid] = asyncio.Queue()`
unfoldable pub open_queue : ℕ → Queues → Queues
open_queue sid [] = (sid, []) ∷ []
open_queue sid ((i, q) ∷ qs) = if sid == i then (i, []) ∷ qs else (i, q) ∷ open_queue sid qs

-- An event of aioquic's HTTP/3 layer; `other` stands for the classes that `_on_h3` does not name.
pub data H3Event : Type 0 where
  headers_received : ℕ → List (Bytes × Bytes) → Bool → H3Event
  data_received : ℕ → Bytes → Bool → H3Event
  other : ℕ → H3Event

-- `... or None`
unfoldable pub or_none : Bytes → Option Bytes
or_none [] = none
or_none (c ∷ s) = some (c ∷ s)

-- One round of the loop over the headers; nothing stands for the ValueError of `int`.
unfoldable pub read_header : Head → Bytes → Bytes → Option Head
read_header h k v =
    if equal k (codes ":status")
    then elim (int_of_bytes v) [ none ↦ none | some n ↦ some (record h { status = n }) ]
    else if equal k (codes "content-encoding")
    then some (record h { enc = or_none (lower (strip (decode_ascii v))) })
    else if equal k (codes "content-type")
    then some (record h { ct = decode_ascii v })
    else some h

unfoldable pub read_headers : Head → List (Bytes × Bytes) → Option Head
read_headers h [] = some h
read_headers h ((k, v) ∷ hs) = elim (read_header h k v) [
  | none ↦ none
  | some h' ↦ read_headers h' hs
]

abbrev pub no_head : Head
no_head = record { status = pos 0; enc = none; ct = [] }

unfoldable pub ending : Bool → List Item
ending ended = if ended then end_item ∷ [] else []

unfoldable pub data_items : Bytes → List Item
data_items [] = []
data_items (c ∷ s) = data_item (c ∷ s) ∷ []

-- What an event puts into the queue of its stream; nothing when `_on_h3` raises.
unfoldable pub items_of : H3Event → Option (List Item)
items_of (headers_received sid headers ended) = elim (read_headers no_head headers) [
  | none ↦ none
  | some h ↦ some (head h ∷ ending ended)
]
items_of (data_received sid payload ended) = some (data_items payload ++ ending ended)
items_of (other sid) = some []

unfoldable pub stream_id : H3Event → ℕ
stream_id (headers_received sid headers ended) = sid
stream_id (data_received sid payload ended) = sid
stream_id (other sid) = sid

-- `_on_h3(e)`: nothing is looked at when the stream has no queue. The ValueError leaves all as it is.
unfoldable pub on_h3 : H3Event → Queues → Option Queues
on_h3 e qs = elim (queue_of (stream_id e) qs) [
  | none ↦ some qs
  | some q ↦ elim (items_of e) [ none ↦ none | some items ↦ some (put_all (stream_id e) items qs) ]
]

-- `self._http is not None`, the queues, and whether an event made the client raise.
pub record Client : Type 0 where
  pub connected : Bool
  pub queues : Queues
  pub raised : Bool

-- The loop over the events; a ValueError ends it.
unfoldable pub on_h3_events : List H3Event → Client → Client
on_h3_events [] c = c
on_h3_events (e ∷ es) c = elim (on_h3 e c.queues) [
  | none ↦ record c { raised = true }
  | some qs ↦ on_h3_events es (record c { queues = qs })
]

-- A QUIC event. Behind each, the HTTP/3 events that aioquic makes of it.
pub data QuicEvent : Type 0 where
  protocol_negotiated : Bytes → List H3Event → QuicEvent
  stream_reset : ℕ → ℕ → QuicEvent
  connection_terminated : ℕ → Bytes → Option ℕ → QuicEvent
  quic_data : List H3Event → QuicEvent

unfoldable pub reason_part : Bytes → Bytes
reason_part [] = []
reason_part (c ∷ s) = codes " \"" ++ (c ∷ s) ++ codes "\""

unfoldable pub frame_part : Option ℕ → Bytes
frame_part none = []
frame_part (some ft) = codes " frame_type=" ++ show ft

unfoldable pub reset_text : ℕ → Bytes
reset_text code = codes "stream reset (code " ++ show code ++ codes ")"

unfoldable pub closed_text : ℕ → Bytes → Option ℕ → Bytes
closed_text code reason ft =
    codes "connection closed (code "
    ++ show code
    ++ reason_part reason
    ++ frame_part ft
    ++ codes ")"

unfoldable pub when_connected : List H3Event → Client → Client
when_connected es c = if c.connected then on_h3_events es c else c

-- `quic_event_received(event)`
unfoldable pub quic_event_received : QuicEvent → Client → Client
quic_event_received (protocol_negotiated alpn es) c =
    when_connected es (if starts_with alpn (codes "h3") then record c { connected = true } else c)
quic_event_received (stream_reset sid code) c = record c {
  queues = put sid (err (reset_text code)) c.queues;
}
quic_event_received (connection_terminated code reason ft) c = record c {
  queues = put_everywhere (err (closed_text code reason ft)) c.queues;
}
quic_event_received (quic_data es) c = when_connected es c
