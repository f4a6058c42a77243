-- ===== src/Chaos/Behaviors/Vanish.antt =====
-- `_vanish` of conformance/stress/client/chaos.py, b_vanish and b_vanish_sse.
use nim_vortex.Prelude.{Bool, true, false, [], ◌∷◌, ◌++◌, leb}
use nim_vortex.Prelude.Bytes.{Bytes, codes}
use nim_vortex.Chaos.Behaviors.{
  Headers, session, socket, stream_get, stream_open, take_item, close_stream, drop_transport,
  linger_zero, write, drain, read_some, World, Ended, ok, fails, cancelled, M, ◌>>=◌, ◌>>◌, pure,
  act, between, chance, doze, swallow, after, enter, leave, abandon, held, each_chunk, event_stream,
  Cell, is_there, if_there, when,
}

abbrev pub crlf : Bytes
crlf = 13 ∷ 10 ∷ []

unfoldable pub header_lines : Headers → Bytes
header_lines [] = []
header_lines ((k, v) ∷ hs) = k ++ (codes ": " ++ (v ++ (crlf ++ header_lines hs)))

-- The first lines of a request: the method with the path, and the Host.
unfoldable pub request_lines : Cell → Bytes → Bytes
request_lines cell line =
    line
    ++ (codes " HTTP/1.1"
        ++ (crlf ++ (codes "Host: " ++ (cell.host ++ (b':' ∷ (cell.port ++ crlf))))))

unfoldable pub raw_get : Cell → Bytes → Headers → Bytes
raw_get cell path hdrs =
    request_lines cell (codes "GET " ++ path)
    ++ (header_lines hdrs ++ (codes "Connection: close" ++ (crlf ++ crlf)))

unfoldable pub vanish_h3 : Bool → Bytes → Headers → M (Unit {0})
vanish_h3 slow_first path hdrs = held session (swallow leave) (do
  act (stream_open path hdrs)
  act take_item
  when slow_first (doze 1000 5000)
  if_there drop_transport)

unfoldable pub vanish_raw : Cell → Bool → Bytes → Headers → M (Unit {0})
vanish_raw cell slow_first path hdrs = held socket (swallow leave) (do
  act (write (raw_get cell path hdrs))
  act drain
  act read_some
  when slow_first (do doze 1000 5000; act read_some)
  if_there linger_zero)

-- The `try` of the h2 branch: it returns `aclose_ok`.
unfoldable pub stream_away : Bool → Bytes → Headers → M Bool
stream_away slow_first path hdrs = do
  act (stream_get path hdrs)
  each_chunk (λ got. do n ← between 1 8; elim (leb n got) [ true ↦ pure false | false ↦ pure true ])
  when slow_first (doze 1000 5000)
  there ← is_there
  elim there [
    | true ↦ do act linger_zero; swallow (act close_stream); pure true
    | false ↦ pure false
  ]

-- Its `finally`: the session is ended unless `aclose_ok` has been taken back.
unfoldable pub unless_lost : World × Ended Bool → World × Ended (Unit {0})
unless_lost (w, ok true) = swallow leave w
unless_lost (w, ok false) = abandon w
unless_lost (w, fails) = after (w, fails) (swallow leave)
unless_lost (w, cancelled) = after (w, cancelled) (swallow leave)

unfoldable pub vanish_h2 : Bool → Bytes → Headers → M (Unit {0})
vanish_h2 slow_first path hdrs = do
  enter session
  λ w. unless_lost (stream_away slow_first path hdrs w)

unfoldable pub vanish_at : Cell → Bytes → Headers → M (Unit {0})
vanish_at cell path hdrs = do
  slow_first ← chance 500
  elim cell.is_h3 [
    | true ↦ vanish_h3 slow_first path hdrs
    | false ↦ elim cell.is_http [
      | true ↦ vanish_raw cell slow_first path hdrs
      | false ↦ vanish_h2 slow_first path hdrs
    ]
  ]

unfoldable pub vanish : Cell → M (Unit {0})
vanish cell = vanish_at cell (codes "/download") []

unfoldable pub vanish_sse : Cell → M (Unit {0})
vanish_sse cell = vanish_at cell (codes "/sse") event_stream
