-- ===== src/H3/Tests.antt =====
-- Runs of the HTTP/3 client.
use nim_vortex.Prelude.{ℕ, ◌+◌, ◌≡◌, refl, true, false, none, some, List, [], ◌∷◌, ◌++◌, arith}
use nim_vortex.H3.Uploads.{
  upload_buf_cap, Upload, go, acked, upload_step, begin, Reaches, here, next,
}
use nim_vortex.H3.Uploads.Window
use nim_vortex.H3.Uploads.Window.{Below, Reaches-Below}
use nim_vortex.Prelude.Bytes.{Bytes, codes, equal}
use nim_vortex.Prelude.Text.{is_digit}
use nim_vortex.Prelude.Ints.{
  ℤ, pos, digits_from, digit_count, signed, is_ascii_space, skip_spaces, keep_inner, trim_right,
  int_of_bytes, decode_ascii,
}
use nim_vortex.Ws.Server.{server_frame, plain_length}
use nim_vortex.Ws.Stream.{encode, told}
use nim_vortex.H3.{
  Head, Item, end_item, err, queue_of, put, put_all, H3Event, headers_received, data_received,
  or_none, read_header, read_headers, no_head, ending, data_items, items_of, stream_id, on_h3,
  Client, on_h3_events, stream_reset, quic_event_received,
}
use nim_vortex.H3.Queues.{delivered, queue_of-on_h3_events}
use nim_vortex.H3.Requests.{replied, read_reply, stream, upload_status, ws_open}
use nim_vortex.H3.Replies.{Stops, Ends, quic_event_received-Ends}
use nim_vortex.H3.Responses.{of_stream, response, response_body, joined, read_reply-on_h3_events}
use nim_vortex.H3.Tunnel.{received, recv}
use nim_vortex.H3.Tunnel.Frames
use nim_vortex.H3.Tunnel.Frames.{chunk_items, recv-encode, recv-server_frame}

abbrev fields : List (Bytes × Bytes)
fields = (codes ":status", codes "200") ∷ (codes "content-type", codes "text/csv") ∷ []

-- Two responses on the streams 0 and 4 whose events alternate.
abbrev events : List H3Event
events =
    headers_received 0 fields false
    ∷ headers_received 4 fields true
    ∷ data_received 0 (codes "a,") false
    ∷ data_received 8 (codes "?") false
    ∷ data_received 0 (codes "b") true
    ∷ []

abbrev client : Client
client = record { connected = true; queues = (0, []) ∷ (4, []) ∷ []; raised = false }

abbrev ok_head : Head
ok_head = record { status = pos 200; enc = none; ct = codes "text/csv" }

fields_read : read_headers no_head fields ≡ some ok_head
unfolding read_headers read_header or_none equal int_of_bytes decode_ascii signed digits_from
    digit_count skip_spaces trim_right keep_inner is_ascii_space is_digit
fields_read = refl

events_pass : (on_h3_events events client).raised ≡ false
unfolding on_h3_events on_h3 items_of stream_id queue_of put put_all ending data_items read_headers
    read_header or_none equal int_of_bytes decode_ascii signed digits_from digit_count skip_spaces
    trim_right keep_inner is_ascii_space is_digit
events_pass = refl

client_queue : queue_of 0 client.queues ≡ some []
unfolding queue_of
client_queue = refl

own_events : of_stream 0 events ≡ response 0 fields (codes "a," ∷ codes "b" ∷ [])
unfolding of_stream response response_body stream_id
own_events = refl

read_reply-on_h3_events_example :
    (q : List Item) × (queue_of 0 (on_h3_events events client).queues ≡ some q)
    × (read_reply no_head [] q ≡ replied (ok_head, joined (codes "a," ∷ codes "b" ∷ [])))
read_reply-on_h3_events_example =
    read_reply-on_h3_events 0 events client fields (codes "a," ∷ codes "b" ∷ []) ok_head
      client_queue events_pass own_events fields_read

queue_of-on_h3_events_example :
    queue_of 0 (on_h3_events events client).queues ≡ some ([] ++ delivered 0 events)
queue_of-on_h3_events_example = queue_of-on_h3_events 0 events client [] client_queue events_pass

quic_event_received-Ends_example :
    (text : Bytes) × (queue_of 0 (quic_event_received (stream_reset 0 7) client).queues
      ≡ some ([] ++ err text ∷ []))
    × Ends (read_reply no_head [] ([] ++ err text ∷ []))
    × Ends (stream ([] ++ err text ∷ [])).1
    × ((st : ℤ) → Ends (upload_status st ([] ++ err text ∷ [])))
    × Ends (ws_open ([] ++ err text ∷ []))
    × ((buf : Bytes) → Stops (recv buf ([] ++ err text ∷ [])))
quic_event_received-Ends_example =
    quic_event_received-Ends 0 (stream_reset 0 7) client [] refl client_queue

frame_in_chunks :
    server_frame 0x81 (72 ∷ 105 ∷ [])
    ≡ [] ++ Frames.joined ((0x81 ∷ []) ∷ (2 ∷ 72 ∷ []) ∷ (105 ∷ []) ∷ [])
unfolding server_frame plain_length Frames.joined
frame_in_chunks = refl

recv-server_frame_example :
    recv [] (chunk_items ((0x81 ∷ []) ∷ (2 ∷ 72 ∷ []) ∷ (105 ∷ []) ∷ []))
    ≡ received (told (0x81, 72 ∷ 105 ∷ [])) [] []
recv-server_frame_example =
    recv-server_frame 0x81 (72 ∷ 105 ∷ []) [] ((0x81 ∷ []) ∷ (2 ∷ 72 ∷ []) ∷ (105 ∷ []) ∷ [])
      (omega arith) (omega arith) tt frame_in_chunks

recv-encode_example :
    recv (encode ((0x81, 72 ∷ []) ∷ (0x81, 105 ∷ []) ∷ [])) (end_item ∷ [])
    ≡ received (told (0x81, 72 ∷ [])) [] (end_item ∷ [])
recv-encode_example =
    recv-encode (0x81, 72 ∷ []) ((0x81, 105 ∷ []) ∷ []) (end_item ∷ []) (ground arith)

abbrev body : List Bytes
body = (1 ∷ 2 ∷ []) ∷ (3 ∷ []) ∷ []

-- What a DATA frame takes of a stream, for chunks of less than 64 bytes.
abbrev framed : ℕ → ℕ
framed n = n + 2

-- The first chunk is sent and acknowledged, and the loop goes on.
abbrev later : Upload
later = upload_step framed go (upload_step framed (acked 4) (upload_step framed go (begin 40 body)))

later_reached : Reaches framed (begin 40 body) later
later_reached = next go _ (next (acked 4) _ (next go _ here))

Reaches-Below_example :
    Below (upload_buf_cap + (2 + 9)) later.buffer
    × (later.sent ++ Window.joined later.chunks ≡ Window.joined body)
Reaches-Below_example =
    Reaches-Below framed 40 2 body later (λ n. omega arith) (omega arith) (ground arith)
      later_reached
