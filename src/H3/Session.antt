-- ===== src/H3/Session.antt =====
-- The methods of H3Session and of H3Ws in conformance/stress/client/h3.py as they change the client: the
-- queues that it has, by stream id, and what it sends. aioquic gives the stream id of a new stream. Items
-- go from a queue straight to its reader; where no more come, the reader is cancelled.
pub mod Queued
pub mod Tests
use nim_vortex.Prelude.{
  ℕ, Bool, true, false, Option, none, some, List, [], ◌∷◌, ◌++◌, if◌then◌else◌,
}
use nim_vortex.Prelude.Bytes.{Bytes, codes}
use nim_vortex.Prelude.Text.{join_comma, show}
use nim_vortex.Ws.{ws_frame}
use nim_vortex.H3.{Item, Queues, no_head, pop, open_queue}
use nim_vortex.H3.Requests.{
  Headers, request_headers, open_headers, Reply, waiting, connection_error, replied, read_reply,
  upload_status, ws_open,
}
use nim_vortex.Prelude.Ints.{ℤ, pos}

pub data Sent : Type 0 where
  headers : ℕ → Headers → Bool → Sent
  payload : ℕ → Bytes → Bool → Sent
  stop_stream reset_stream : ℕ → ℕ → Sent
  transmit : Sent

pub record Link : Type 0 where
  pub authority : Bytes
  pub queues : Queues
  pub sent : List Sent

-- `connect_h3(host, port)` once the connection stands; none is the ProtocolPinError where no HTTP/3 was
-- negotiated.
unfoldable pub connect_h3 : Bool → Bytes → ℕ → Option Link
connect_h3 false host port = none
connect_h3 true host port =
    some (record { authority = host ++ b':' ∷ show port; queues = []; sent = [] })

unfoldable pub send : List Sent → Link → Link
send xs l = record l { sent = l.sent ++ xs }

-- `_open(method, path, headers, end)` on the stream `sid`
unfoldable pub open_stream : ℕ → Bytes → Bytes → Headers → Bool → Link → Link
open_stream sid method path hdrs end l = record l {
  queues = open_queue sid l.queues;
  sent = l.sent ++ (headers sid (open_headers l.authority method path hdrs) end ∷ transmit ∷ []);
}

unfoldable pub forget : ℕ → Link → Link
forget sid l = record l { queues = pop sid l.queues }

unfoldable pub is_empty : Bytes → Bool
is_empty [] = true
is_empty (c ∷ s) = false

unfoldable pub send_content : ℕ → Bytes → Link → Link
send_content sid content l =
    if is_empty content then l else send (payload sid content true ∷ transmit ∷ []) l

-- `request` forgets its queue on an error and at the end, and not when it is cancelled.
unfoldable pub unless_waiting {ℓ} : {A : Type ℓ} → Reply A → ℕ → Link → Link
unless_waiting waiting sid l = l
unless_waiting (connection_error text) sid l = forget sid l
unless_waiting (replied a) sid l = forget sid l

unfoldable pub requesting : ℕ → Bytes → Bytes → Headers → Bytes → List Item → Link → Link
requesting sid method path hdrs content items l =
    let hdrs' = request_headers hdrs content in
    let l' = open_stream sid method path hdrs' (is_empty content) l in
    unless_waiting (read_reply no_head [] items) sid (send_content sid content l')

-- `stream` forgets its queue in its `finally`, however it ends.
unfoldable pub streaming : ℕ → Bytes → Bytes → Headers → Link → Link
streaming sid method path hdrs l = forget sid (open_stream sid method path hdrs true l)

unfoldable pub send_chunks : ℕ → List Bytes → Link → Link
send_chunks sid [] l = l
send_chunks sid (c ∷ cs) l = send_chunks sid cs (send (payload sid c false ∷ transmit ∷ []) l)

-- `upload` of the chunks that the body yields; `whole` tells whether the body came to its end before the
-- upload was cancelled, or raised.
unfoldable pub uploading : ℕ → Bytes → Headers → List Bytes → Bool → Link → Link
uploading sid path hdrs chunks whole l =
    let l' = send_chunks sid chunks (open_stream sid (codes "POST") path hdrs false l) in
    forget sid (if whole then send (payload sid [] true ∷ transmit ∷ []) l' else l')

unfoldable pub subprotocol_header : List Bytes → Headers
subprotocol_header [] = []
subprotocol_header (p ∷ ps) = (codes "sec-websocket-protocol", join_comma (p ∷ ps)) ∷ []

unfoldable pub ws_headers : Bytes → Bytes → List Bytes → Headers
ws_headers authority path subprotocols =
    (codes ":method", codes "CONNECT")
    ∷ (codes ":scheme", codes "https")
    ∷ (codes ":authority", authority)
    ∷ (codes ":path", path)
    ∷ (codes ":protocol", codes "websocket")
    ∷ (codes "sec-websocket-version", codes "13")
    ∷ subprotocol_header subprotocols

-- The items up to the one that ends the wait of `ws_open`: an error forgets the queue, the end of the
-- stream does not.
unfoldable pub on_items : List Item → ℕ → Link → Link
on_items [] sid l = l
on_items (Item.head h ∷ q) sid l = l
on_items (Item.data_item d ∷ q) sid l = on_items q sid l
on_items (Item.err text ∷ q) sid l = forget sid l
on_items (Item.end_item ∷ q) sid l = l

unfoldable pub opening_ws : ℕ → Bytes → List Bytes → List Item → Link → Link
opening_ws sid path subprotocols items l = on_items items sid (record l {
  queues = open_queue sid l.queues;
  sent = l.sent ++ (headers sid (ws_headers l.authority path subprotocols) false ∷ transmit ∷ []);
})

-- `H3Ws.send`
unfoldable pub ws_send : ℕ → ℕ → Bytes → Link → Link
ws_send sid opcode message l =
    send (payload sid (ws_frame opcode message true) false ∷ transmit ∷ []) l

-- `abort_stream(sid, code)`: `finished` is what aioquic has of the stream, whether its sender is finished.
-- A stop that raises a ValueError has no other effect.
unfoldable pub reset_part : Option Bool → ℕ → ℕ → List Sent
reset_part none sid code = []
reset_part (some true) sid code = []
reset_part (some false) sid code = reset_stream sid code ∷ []

unfoldable pub stop_part : Bool → ℕ → ℕ → List Sent
stop_part true sid code = []
stop_part false sid code = stop_stream sid code ∷ []

unfoldable pub abort_stream : ℕ → ℕ → Bool → Option Bool → Link → Link
abort_stream sid code raised finished l =
    forget sid
      (send (stop_part raised sid code ++ (reset_part finished sid code ++ transmit ∷ [])) l)

-- A call of one of the methods on a stream.
pub data Call : Type 0 where
  request : Bytes → Bytes → Headers → Bytes → List Item → Call
  stream : Bytes → Bytes → Headers → Call
  upload : Bytes → Headers → List Bytes → Bool → Call
  open_ws : Bytes → List Bytes → List Item → Call
  stream_open : Bytes → Bytes → Headers → Call

unfoldable pub call : ℕ → Call → Link → Link
call sid (request method path hdrs content items) l =
    requesting sid method path hdrs content items l
call sid (stream method path hdrs) l = streaming sid method path hdrs l
call sid (upload path hdrs chunks whole) l = uploading sid path hdrs chunks whole l
call sid (open_ws path subprotocols items) l = opening_ws sid path subprotocols items l
call sid (stream_open method path hdrs) l = open_stream sid method path hdrs true l

-- What is done with the client: a call on a new stream, an `H3Ws.send`, an `H3Ws.close`, an `abort_stream`.
pub data Step : Type 0 where
  calls : ℕ → Call → Step
  sends : ℕ → ℕ → Bytes → Step
  closes : ℕ → Step
  aborts : ℕ → ℕ → Bool → Option Bool → Step

unfoldable pub step : Step → Link → Link
step (calls sid c) l = call sid c l
step (sends sid opcode message) l = ws_send sid opcode message l
step (closes sid) l = forget sid l
step (aborts sid code raised finished) l = abort_stream sid code raised finished l

unfoldable pub run : List Step → Link → Link
run [] l = l
run (s ∷ ss) l = run ss (step s l)
