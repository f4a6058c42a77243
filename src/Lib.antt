-- ===== src/Lib.antt =====
-- A verification of the Python programs that put the vortex server under load and judge it:
-- conformance/stress/client, with the modules stress_client.py (the soaks and their verdict),
-- chaos.py (the sidecar that abuses connections and watches for leaked descriptors), h3.py (the
-- HTTP/3 client) and transport.py (the payload and the sessions); and of
-- conformance/h3websocket/client.py, which puts the WebSocket of the server over HTTP/3 to the
-- test, and of conformance/interop/clients/python/client.py. The server itself is written in Nim
-- and is not modelled.
--
-- Prelude holds the shared library: lists measured by native numbers, Boolean tests, bytes with
-- big-endian integers and bit masks (Prelude.Bytes), the text methods of Python (Prelude.Text),
-- int and decode (Prelude.Ints) and dicts in insertion order (Prelude.Dict). A text or a bytes
-- object is a list of numbers.
--
-- Ws models ws_frame and parse_ws of h3.py. parse_round is one round of the loop, with positions
-- counted from the start of the buffer; the fuel of parse_loop is the buffer's length plus one,
-- which suffices since a round takes two bytes at least. Ws.Server describes a server's frames,
-- Ws.Client decodes a client's; Ws.Progress, Ws.Chunks, Ws.Reads and Ws.Stream hold the proofs.
--
-- H3 models H3Client: the queues by stream id and quic_event_received, _on_h3. What aioquic does
-- comes in as arguments: the HTTP/3 events that it makes of a QUIC event. H3.Requests holds the
-- readers of a queue (request, stream, the end of upload, ws_open), decode_body with the
-- decompressors as an argument, and the headers of a request; H3.Tunnel holds H3Ws.recv, and
-- H3.Uploads the body loop of _upload_body as a machine that is driven by the loop's own steps and
-- by what aioquic does to its buffer; how many bytes a DATA frame takes of the stream is its
-- argument framed, of which the bound assumes what a frame header takes at most, and the HEADERS
-- frame that is in the buffer before is a number. H3.Session has the same methods as they change
-- the queues and what is sent, one call after another. A reader works on the list of all items
-- that its queue will deliver and says when it would wait for more. int of a header takes what
-- Python takes of ASCII.
--
-- Mix models parse_mix, split_mix and MIX_SLICES of stress_client.py. The shares are quotients in
-- binary64: Mix.Quotient divides with correct rounding, on the fuel of the exponent's range. The
-- messages of mix_fail are reasons. Stress models the counters, no_progress, teardown_race and one
-- transfer of w_streamupload, whose Transfer says what the session and the server do and whether
-- the deadline has passed; Stress.Download is one transfer of w_streamdownload with the hash as an
-- argument, and Stress.Main is main from the end of the workers on. Sse models read_lines, whose
-- fuel is the buffer's length, since each round takes a newline off; Sse.Feed is one sequence of
-- w_sse over the connections that it is given, whose lines are ASCII where something is stated of
-- them.
--
-- Stress.Reports models the report lines: fmt_codes, fmt_mb, fmt_rate, mix_segments with its
-- marks, and report_line; the texts of rates, which round quotients of floats, are an argument.
--
-- Stress.Workers models the workers that verify every answer: once of w_requests, w_methods and
-- w_ws (Stress.Workers.Requests, Methods and Echo) and drive. A worker is a function of the
-- counters, which it hands on together with its end, a return or an exception; the answers of the
-- requests that it begins before the deadline are its arguments. Stress.Workers.Judged says what a
-- run of checks does.
--
-- Transport models gen_chunk and body_gen of transport.py; the fuel of body_gen is STREAM plus
-- one, which suffices when CHUNK is above 0. Transport.Sessions holds compress, ACCEPT, _pin_check
-- and the methods of HttpxSession on a response of httpx, with the compressors as arguments;
-- Transport.Stats is get_server_stats, and Transport.Catalog builds payload_mix and expected_gets,
-- with the random bodies and the decimal texts of the ratios as arguments.
--
-- WsClient models conformance/h3websocket/client.py, a client of its own: WsClient.Framing is its
-- ws_frame and parse_ws, WsClient.Utf8 decodes the status, WsClient.Session is the class WsClient,
-- and WsClient.Script the cases and main. What arrives is a list of batches, each the QUIC events
-- that are handled before a waiting operation goes on; a wait takes batches until its flag is set,
-- and times out when none are left, which stands for the deadline. The stream ids and the time of
-- the deferred reply are arguments. The loops of recv_ws and of stop_sending have the number of
-- batches plus one as fuel, which suffices since every further round takes a batch.
-- WsClient.Session.Refines compares the class with a history of what has been heard.
--
-- Interop models conformance/interop/clients/python/client.py: the checks of worker on every
-- answer and main up to its exit. The answers of each round that begins before the deadline are
-- arguments, and so are CLIENTS, as the number of workers, and the settings MTLS and ENC.
--
-- Chaos models parse_behaviors, BEHAVIORS, build_pool, the tallies and the tally line of chaos.py.
-- Chaos.Fds models the samples of the open descriptors, and Chaos.Run the order of run and main
-- with their exit codes, where an argument says whether an exception cuts the run short, and of
-- which of the two kinds that main tells apart. The environment gives the outcome and the duration
-- of each attempt; settle_fds has 61 rounds, which outlast its 60 seconds since every round sleeps
-- for one.
--
-- Chaos.Behaviors models the behaviours b_* of chaos.py and its worker: Generic, Vanish and
-- Targeted hold them as the source groups them, Worker the loop that picks one. A behaviour is a
-- function of a world: the replies that the environment has for its calls, the rolls of its random
-- numbers, the clock in milliseconds, connects[0], and the trace of what it did. A call without a
-- reply is cancelled, as the workers are when the time is up. The loops that wait for chunks or
-- for the clock have the number of replies as fuel, which suffices since a round takes one at
-- least; without fuel there is none left and the call is cancelled. Ending a connection is one
-- step that is recorded also when it raises.
--
-- Not modelled: the opening of sessions, which is input and output; the generator of random
-- numbers; in stress_client.py fmt_xfer, the texts of a failure's causes and the supervisor of the
-- mixed workload; conformance/fairness/summarize.py, which prints one line of a JSON file.
pub mod Prelude
pub mod Ws
pub mod Mix
pub mod Chaos
pub mod H3
pub mod Transport
pub mod Stress
pub mod Sse
pub mod WsClient
pub mod Interop
