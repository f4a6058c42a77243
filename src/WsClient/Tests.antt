-- ===== src/WsClient/Tests.antt =====
-- Runs of the h3websocket client.
use nim_vortex.Prelude.{
  ℕ, ◌*◌, ◌≡◌, refl, true, false, none, some, List, [], ◌∷◌, ◌++◌, map, take, length, replicate,
  arith,
}
use nim_vortex.Prelude.Text.{join_comma}
use nim_vortex.Prelude.Bytes.{Bytes, codes, equal}
use nim_vortex.Ws.{parsed}
use nim_vortex.Ws.Server.{server_frame, plain_length}
use nim_vortex.Ws.Stream.{encode, told}
use nim_vortex.WsClient.Framing.{ws_frame, length_round, parse_round, parse_loop, parse_ws}
use nim_vortex.Ws.{mask_from, payload_round}
use nim_vortex.Prelude.Dict.{lookup}
use nim_vortex.WsClient.Framing.Cuts.{whole, parse_ws-take}
use nim_vortex.WsClient.Utf8.{decode_utf8, decode_from, decode_byte, first_byte}
use nim_vortex.WsClient.Session.{
  Headers, Event, headers_received, data_received, Arrival, Batch, Client, Opening, fresh, set_item,
  dict_onto, set_stop, stop_of, is_own, read_status, on_event, on_events, on_stop,
  quic_event_received, receive, version_header, protocol_header, open_headers, send_pipelined,
  handshake, begin_ws, wait_for, opened_status, open_ws, stop_loop, stop_sending, or_empty,
  resp_header, send_raw, recv_loop, recv_ws,
}
use nim_vortex.WsClient.Session.Receive.{Receives, recv_ws-server_frame}
use nim_vortex.WsClient.Session.Receive.Events.{batch_data, events_data, event_data}
use nim_vortex.WsClient.Session.Receive.Wakes.{Delivers}
use nim_vortex.WsClient.Session.Refines.{
  History, Implements, heard_data, status_from, headers_from, is_answered,
}
use nim_vortex.WsClient.Session.Refines.Receives as R
use nim_vortex.WsClient.Session.Refines.Stops.{Stops}
use nim_vortex.WsClient.Session.Refines.Opens.{Opens}
use nim_vortex.WsClient.Session.Refines.Calls.{client-Refines}
use nim_vortex.WsClient.Script.{
  expects_stop, expects_header, stopping, stopped_with, refusals, bad_version, coalesced, early_fin,
  async_send, Run, main, check, is_status, is_frame, is_close, opening, opens, receiving, sending,
  send_ws, expects, expects_close, both, pipelining, connected, main_case,
}

check_mark : decode_utf8 (0x63 ∷ 0xe2 ∷ 0x9c ∷ 0x93 ∷ []) ≡ some (0x63 ∷ 0x2713 ∷ [])
unfolding decode_utf8 decode_from decode_byte first_byte
check_mark = refl

surrogate : decode_utf8 (0xed ∷ 0xa0 ∷ 0x80 ∷ []) ≡ none
unfolding decode_utf8 decode_from decode_byte first_byte
surrogate = refl

abbrev replies : List (ℕ × Bytes)
replies = (0x81, codes "ok") ∷ (0x82, replicate 130 7) ∷ []

cut_in_second :
    parse_ws (take 9 (encode replies))
    ≡ parsed (map told (whole 9 replies)) (length (encode (whole 9 replies)))
cut_in_second = parse_ws-take 9 replies (omega arith)

abbrev quiet : List Event → Arrival
quiet es = record { stop = none; events = es }

abbrev opened : Client
opened = record fresh { sid = some 4; got_headers = true }

abbrev cut : List Batch
cut =
    (quiet (data_received 4 (0x81 ∷ 2 ∷ []) ∷ data_received 0 (9 ∷ []) ∷ []) ∷ [])
    ∷ (quiet (data_received 4 (codes "o") ∷ []) ∷ quiet (data_received 4 (codes "k") ∷ []) ∷ [])
    ∷ []

cut-Delivers : Delivers 4 (server_frame 0x81 (codes "ok")) cut
unfolding server_frame plain_length batch_data events_data event_data
cut-Delivers =
    ((tt, tt), (λ e. cc (e)), (codes "ok", refl, ((tt, (tt, tt)), (λ e. cc (e)), ([], refl, refl))))

recv_ws-server_frame_example :
    Receives 4 (1, codes "ok") opened ([] ∷ []) (recv_ws 1 (cut ++ [] ∷ []) opened)
recv_ws-server_frame_example =
    recv_ws-server_frame 4 0x81 (codes "ok") (server_frame 0x81 (codes "ok")) cut ([] ∷ []) opened
      (omega arith) (omega arith) refl refl cut-Delivers

abbrev silent : History
silent = record { own = none; heard = []; taken = 0; signals = [] }

fresh-Implements : Implements fresh silent
unfolding heard_data status_from headers_from is_answered
fresh-Implements = record {
  same_stream = refl;
  same_status = refl;
  same_headers = refl;
  same_data = refl;
  same_answer = refl;
  same_stops = λ sid. refl;
  in_range = omega arith;
}

client-Refines_example :
    ((sid : ℕ) (o : Opening) → Opens sid silent cut (open_ws sid o cut fresh))
    × ((want : ℕ) → R.Receives want silent cut (recv_ws want cut fresh))
    × ((sid : ℕ) → Stops sid silent cut (stop_sending sid cut fresh))
client-Refines_example = client-Refines fresh silent cut fresh-Implements

abbrev response : Bytes → Headers → Arrival
response st hs = quiet (headers_received 0 ((codes ":status", st) ∷ hs) ∷ [])

abbrev says : ℕ → ℕ → Bytes → Batch
says sid b0 payload = quiet (data_received sid (b0 ∷ length payload ∷ payload) ∷ []) ∷ []

abbrev accepted : List Batch
accepted = (response (codes "200") [] ∷ []) ∷ []

abbrev echo_run : Run
echo_run = record {
  first = some (
      accepted
      ++ (says 0 0x81 (codes "hello")
          ∷ says 0 0x82 (0 ∷ 1 ∷ 2 ∷ 0xff ∷ [])
          ∷ says 0 0x8a (codes "pingpayload")
          ∷ says 0 0x81 (codes "chat")
          ∷ says 0 0x81 (codes "Hello!")
          ∷ says 0 0x88 (3 ∷ 0xe8 ∷ [])
          ∷ []));
  coalesced_on = some ((response (codes "200") [] ∷ says 0 0x81 (codes "coalesced")) ∷ []);
  early_fin_on = some (accepted ++ says 0 0x88 [] ∷ []);
  async_send_on = some (accepted ++ says 0 0x81 (codes "later") ∷ []);
  bad_version_on = none;
  elapsed = 240;
}

-- The first case passes.
first_passes : connected (main_case (λ k. 4 * k)) echo_run.first ≡ true
unfolding set_item dict_onto set_stop stop_of is_own read_status on_event on_events on_stop
    quic_event_received receive join_comma version_header protocol_header open_headers
    send_pipelined handshake begin_ws wait_for opened_status open_ws stop_loop stop_sending or_empty
    resp_header send_raw recv_loop recv_ws check is_status is_frame is_close opening opens receiving
    sending send_ws expects expects_close both pipelining connected main_case ws_frame length_round
    parse_round parse_loop parse_ws mask_from payload_round lookup equal decode_utf8 decode_from
    decode_byte first_byte
first_passes = refl

abbrev refused : ℕ → Batch
refused sid =
    record {
      stop = some (sid, 0x100);
      events =
          headers_received sid
            ((codes ":status", codes "426") ∷ (codes "sec-websocket-version", codes "13") ∷ [])
          ∷ [];
    }
    ∷ []

-- Two refusals, and then a WebSocket on the third stream, whose echo comes in two pieces.
abbrev refusing : List Batch
refusing =
    refused 0
    ∷ refused 4
    ∷ (quiet (headers_received 8 ((codes ":status", codes "200") ∷ []) ∷ []) ∷ [])
    ∷ (quiet (data_received 8 (0x81 ∷ 9 ∷ codes "after") ∷ []) ∷ [])
    ∷ (quiet (data_received 8 (codes "-426") ∷ []) ∷ [])
    ∷ []

refusals_pass : connected (bad_version (λ k. 4 * k) 1) (some refusing) ≡ true
unfolding set_item dict_onto set_stop stop_of is_own read_status on_event on_events on_stop
    quic_event_received receive join_comma version_header protocol_header open_headers
    send_pipelined handshake begin_ws wait_for opened_status open_ws stop_loop stop_sending or_empty
    resp_header send_raw recv_loop recv_ws check is_status is_frame is_close opening opens receiving
    sending send_ws expects expects_close both pipelining connected main_case ws_frame length_round
    parse_round parse_loop parse_ws mask_from payload_round lookup equal decode_utf8 decode_from
    decode_byte first_byte expects_stop expects_header stopping stopped_with refusals bad_version
    coalesced early_fin async_send
refusals_pass = refl

-- Without STOP_SENDING the case fails.
abbrev unstopped : List Batch
unstopped = (quiet (headers_received 0 ((codes ":status", codes "426") ∷ []) ∷ []) ∷ []) ∷ []

unstopped_fails : connected (bad_version (λ k. 4 * k) 0) (some unstopped) ≡ false
unfolding set_item dict_onto set_stop stop_of is_own read_status on_event on_events on_stop
    quic_event_received receive join_comma version_header protocol_header open_headers
    send_pipelined handshake begin_ws wait_for opened_status open_ws stop_loop stop_sending or_empty
    resp_header send_raw recv_loop recv_ws check is_status is_frame is_close opening opens receiving
    sending send_ws expects expects_close both pipelining connected main_case ws_frame length_round
    parse_round parse_loop parse_ws mask_from payload_round lookup equal decode_utf8 decode_from
    decode_byte first_byte expects_stop expects_header stopping stopped_with refusals bad_version
    coalesced early_fin async_send
unstopped_fails = refl

-- A connection that is not opened ends the run with 1.
unopened_fails : main (λ k. 4 * k) (record echo_run { first = none }) ≡ 1
unfolding connected main
unopened_fails = refl
