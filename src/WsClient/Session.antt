-- ===== src/WsClient/Session.antt =====
-- `WsClient` of conformance/h3websocket/client.py: its state, the events that change it, and the
-- operations that wait for them. What aioquic makes of the packets comes in as arrivals, grouped by
-- what is processed before a waiting operation goes on; after the last of them the time is up.
pub mod Receive
pub mod Refines
use mathlib.Core.Option
use nim_vortex.Prelude.{
  ℕ, zero, suc, ◌+◌, Bool, true, false, not, ◌&&◌, Option, none, some, List, [], ◌∷◌, ◌++◌, length,
  drop, ltb, leb, ◌==◌, if◌then◌else◌,
}
use nim_vortex.Prelude.Text.{join_comma}
use nim_vortex.Prelude.Bytes.{Bytes, codes, equal}
use nim_vortex.Prelude.Dict.{Dict, lookup}
use nim_vortex.Ws.{Parsed, parsed, assertion_error, spent}
use nim_vortex.WsClient.Framing.{ws_frame, parse_ws}
use nim_vortex.WsClient.Utf8.{decode_utf8}

abbrev pub Headers : Type 0
Headers = List (Bytes × Bytes)

-- The HTTP/3 events that the client looks at.
pub data Event : Type 0 where
  headers_received : ℕ → Headers → Event
  data_received : ℕ → Bytes → Event

-- A QUIC event: a StopSendingReceived has its stream and code, and any event may have HTTP/3 events.
pub record Arrival : Type 0 where
  pub stop : Option (ℕ × ℕ)
  pub events : List Event

abbrev pub Batch : Type 0
Batch = List Arrival

-- What the client hands to aioquic.
pub data Sent : Type 0 where
  send_headers : ℕ → Headers → Sent
  send_data : ℕ → Bytes → Sent
  send_end : ℕ → Sent

-- The fields of the client; `buffer` is `_data`, and `wire` is what has been sent.
pub record Client : Type 0 where
  pub sid : Option ℕ
  pub status : Option Bytes
  pub headers : Dict Bytes
  pub buffer : Bytes
  pub got_headers : Bool
  pub got_data : Bool
  pub got_stop : Bool
  pub stops : List (ℕ × ℕ)
  pub wire : List Sent

-- `__init__`
abbrev pub fresh : Client
fresh = record {
  sid = none;
  status = none;
  headers = [];
  buffer = [];
  got_headers = false;
  got_data = false;
  got_stop = false;
  stops = [];
  wire = [];
}

-- `d[k] = v`
unfoldable pub set_item : Bytes → Bytes → Dict Bytes → Dict Bytes
set_item k v [] = (k, v) ∷ []
set_item k v ((j, w) ∷ d) = if equal k j then (j, v) ∷ d else (j, w) ∷ set_item k v d

-- `dict(headers)`
unfoldable pub dict_onto : Dict Bytes → Headers → Dict Bytes
dict_onto d [] = d
dict_onto d ((k, v) ∷ hs) = dict_onto (set_item k v d) hs

-- `self._stops[sid] = code`
unfoldable pub set_stop : ℕ → ℕ → List (ℕ × ℕ) → List (ℕ × ℕ)
set_stop sid code [] = (sid, code) ∷ []
set_stop sid code ((j, w) ∷ stops) =
    if sid == j then (j, code) ∷ stops else (j, w) ∷ set_stop sid code stops

unfoldable pub stop_of : ℕ → List (ℕ × ℕ) → Option ℕ
stop_of sid [] = none
stop_of sid ((j, code) ∷ stops) = if sid == j then some code else stop_of sid stops

-- `e.stream_id == self._sid`
unfoldable pub is_own : Option ℕ → ℕ → Bool
is_own none sid = false
is_own (some own) sid = sid == own

-- The loop over the headers: the status, and whether each `:status` could be decoded.
unfoldable pub read_status : Option Bytes → Headers → Option Bytes × Bool
read_status st [] = (st, true)
read_status st ((k, v) ∷ hs) = elim (equal k (codes ":status")) [
  | false ↦ read_status st hs
  | true ↦ elim (decode_utf8 v) [ none ↦ (st, false) | some text ↦ read_status (some text) hs ]
]

-- One HTTP/3 event: the new state, and whether it raised nothing.
unfoldable pub on_event : Event → Client → Client × Bool
on_event (headers_received sid hs) c =
    let (st, decoded) = read_status c.status hs in
    if is_own c.sid sid
    then (
      record c {
        headers = dict_onto [] hs;
        status = st;
        got_headers = if decoded then true else c.got_headers;
      },
      decoded,
    )
    else (c, true)
on_event (data_received sid payload) c =
    if is_own c.sid sid
    then (record c { buffer = c.buffer ++ payload; got_data = true }, true)
    else (c, true)

unfoldable pub on_events : List Event → Client → Client
on_events [] c = c
on_events (e ∷ es) c = let (c', quiet) = on_event e c in if quiet then on_events es c' else c'

unfoldable pub on_stop : Option (ℕ × ℕ) → Client → Client
on_stop none c = c
on_stop (some (sid, code)) c = record c { stops = set_stop sid code c.stops; got_stop = true }

-- `quic_event_received(event)`
unfoldable pub quic_event_received : Arrival → Client → Client
quic_event_received a c = on_events a.events (on_stop a.stop c)

unfoldable pub receive : Batch → Client → Client
receive [] c = c
receive (a ∷ as') c = receive as' (quic_event_received a c)

-- What `open_ws` is called with.
pub record Opening : Type 0 where
  pub authority : Bytes
  pub path : Bytes
  pub subprotocols : List Bytes
  pub pipelined : Bytes
  pub fin : Bool
  pub version : Bytes

unfoldable pub version_header : Bytes → Headers
version_header [] = []
version_header (c ∷ v) = (codes "sec-websocket-version", c ∷ v) ∷ []

unfoldable pub protocol_header : List Bytes → Headers
protocol_header [] = []
protocol_header (p ∷ ps) = (codes "sec-websocket-protocol", join_comma (p ∷ ps)) ∷ []

unfoldable pub open_headers : Opening → Headers
open_headers o =
    (codes ":method", codes "CONNECT")
    ∷ (codes ":scheme", codes "https")
    ∷ (codes ":authority", o.authority)
    ∷ (codes ":path", o.path)
    ∷ (codes ":protocol", codes "websocket")
    ∷ (version_header o.version ++ protocol_header o.subprotocols)

unfoldable pub send_pipelined : ℕ → Bytes → List Sent
send_pipelined sid [] = []
send_pipelined sid (c ∷ payload) = send_data sid (c ∷ payload) ∷ []

unfoldable pub handshake : ℕ → Opening → List Sent
handshake sid o =
    send_headers sid (open_headers o)
    ∷ (send_pipelined sid o.pipelined ++ (if o.fin then send_end sid ∷ [] else []))

-- `open_ws` up to its wait, on the stream `sid` that aioquic gives it.
unfoldable pub begin_ws : ℕ → Opening → Client → Client
begin_ws sid o c = record c {
  sid = some sid;
  status = none;
  headers = [];
  buffer = [];
  got_headers = false;
  got_data = false;
  wire = c.wire ++ handshake sid o;
}

-- The waits: the state and what is still to come, or the time is up.
unfoldable pub wait_for : (Client → Bool) → List Batch → Client → Option (Client × List Batch)
wait_for flag [] c = if flag c then some (c, []) else none
wait_for flag (b ∷ bs) c = if flag c then some (c, b ∷ bs) else wait_for flag bs (receive b c)

-- How an operation ends.
pub data Result {ℓ} (A : Type ℓ) : Type ℓ where
  returned : A → Result A
  failed_assertion : Result A
  timed_out : Result A
  out_of_fuel : Result A

unfoldable pub opened_status :
    Option (Client × List Batch) → Result (Option Bytes × Client × List Batch)
opened_status none = timed_out
opened_status (some (c, bs)) = returned (c.status, c, bs)

-- `open_ws`
unfoldable pub open_ws :
    ℕ → Opening → List Batch → Client → Result (Option Bytes × Client × List Batch)
open_ws sid o bs c = opened_status (wait_for (λ c'. c'.got_headers) bs (begin_ws sid o c))

-- `stop_sending(sid)`: each wait takes a batch at least.
unfoldable pub stop_loop : ℕ → ℕ → List Batch → Client → Result (ℕ × Client × List Batch)
stop_loop zero sid bs c = out_of_fuel
stop_loop (suc fuel) sid bs c = elim (stop_of sid c.stops) [
  | some code ↦ returned (code, c, bs)
  | none ↦ elim (wait_for (λ c'. c'.got_stop) bs (record c { got_stop = false })) [
    | none ↦ timed_out
    | some (c', bs') ↦ stop_loop fuel sid bs' c'
  ]
]

unfoldable pub stop_sending : ℕ → List Batch → Client → Result (ℕ × Client × List Batch)
stop_sending sid bs c = stop_loop (suc (length bs)) sid bs c

-- `resp_header(name)`
unfoldable pub or_empty : Option Bytes → Bytes
or_empty none = []
or_empty (some v) = v

unfoldable pub resp_header : Bytes → Client → Bytes
resp_header name c = or_empty (lookup name c.headers)

-- `send_raw(data)`, on the stream that was opened
unfoldable pub send_raw : Bytes → Client → Client
send_raw payload c = elim c.sid [
  | none ↦ c
  | some sid ↦ record c { wire = c.wire ++ send_data sid payload ∷ [] }
]

-- `recv_ws(want)`: every wait takes a batch at least.
unfoldable pub recv_loop :
    ℕ → ℕ → List Batch → Client → Result (List (ℕ × Bytes) × Client × List Batch)
recv_loop zero want bs c = out_of_fuel
recv_loop (suc fuel) want bs c = elim (parse_ws c.buffer) [
  | spent ↦ out_of_fuel
  | assertion_error ↦ failed_assertion
  | parsed frames consumed ↦ elim (leb want (length frames)) [
    | true ↦ returned (frames, record c { buffer = drop consumed c.buffer }, bs)
    | false ↦ elim (wait_for (λ c'. c'.got_data) bs (record c { got_data = false })) [
      | none ↦ timed_out
      | some (c', bs') ↦ recv_loop fuel want bs' c'
    ]
  ]
]

unfoldable pub recv_ws : ℕ → List Batch → Client → Result (List (ℕ × Bytes) × Client × List Batch)
recv_ws want bs c = recv_loop (suc (length bs)) want bs c
