-- ===== src/Chaos/Behaviors/Generic.antt =====
-- b_slowread, b_slowwrite, b_idle and b_abort of conformance/stress/client/chaos.py.
use nim_vortex.Prelude.{ℕ, zero, suc, ◌+◌, true, false, [], length, ltb, leb, if◌then◌else◌}
use nim_vortex.Prelude.Bytes.{codes}
use nim_vortex.Chaos.Behaviors.{
  session, websocket, get, stream_get, stream_open, upload, close_stream, take_item, abort_stream,
  give, await_upload, ws_open, ws_close, head, chunk, over, error, M, fails, ◌>>=◌, ◌>>◌, pure,
  skip, call, act, now, wait, between, chance, doze, finally, in_session, each_chunk, event_stream,
  wrong_sha1, Cell,
}

-- Chunks are read with pauses, until the deadline.
unfoldable pub dawdle : ℕ → ℕ → ℕ → M (Unit {0})
dawdle deadline lo hi = each_chunk (λ got. do
  t ← now
  elim (leb deadline t) [ true ↦ pure false | false ↦ do doze lo hi; pure true ])

unfoldable pub slowread : M (Unit {0})
slowread = do
  sse ← chance 250
  budget ← between 5000 15000
  start ← now
  in_session session (do
    act (
        stream_get (if sse then codes "/sse" else codes "/download")
          (if sse then event_stream else []))
    dawdle (start + budget) 100 500
    act close_stream)

-- `drip()`, the slices from the offset `off` on. On fuel as much as there are replies, since a round takes
-- two.
unfoldable pub drip : ℕ → ℕ → ℕ → M (Unit {0})
drip zero deadline off = do
  t ← now
  elim (ltb t deadline) [ true ↦ act (give off 4096) | false ↦ skip ]
drip (suc fuel) deadline off = do
  t ← now
  elim (ltb t deadline) [
    | true ↦ do act (give off 4096); doze 50 250; drip fuel deadline (off + 4096)
    | false ↦ skip
  ]

unfoldable pub slowwrite : M (Unit {0})
slowwrite = do
  budget ← between 5000 15000
  start ← now
  in_session session (do
    act (upload (codes "/upload") wrong_sha1)
    λ w. drip (length w.replies) (start + budget) 0 w
    act await_upload)

unfoldable pub idle : Cell → M (Unit {0})
idle cell = do
  hold ← between 10000 30000
  want_ws ← chance 500
  elim want_ws [
    | true ↦ elim cell.is_h3 [
      | true ↦ in_session session (do act ws_open; finally (act ws_close) (wait hold))
      | false ↦ in_session websocket (wait hold)
    ]
    | false ↦ in_session session (do act (get (codes "/plaintext") []); wait hold)
  ]

-- The items of the queue, until there are `want` chunks or the stream ends. On fuel as much as there are
-- replies, since a round takes one.
unfoldable pub take_chunks : ℕ → ℕ → ℕ → M (Unit {0})
take_chunks zero want got = elim (ltb got want) [ true ↦ act take_item | false ↦ skip ]
take_chunks (suc fuel) want got = elim (ltb got want) [
  | false ↦ skip
  | true ↦ do
    r ← call take_item
    elim r.kind [
      | head ↦ take_chunks fuel want got
      | chunk ↦ take_chunks fuel want (suc got)
      | over ↦ skip
      | error ↦ skip
    ]
]

-- `raise RuntimeError(…)` in the body of the upload
unfoldable pub boom : M (Unit {0})
boom w = (w, fails)

unfoldable pub abort : Cell → M (Unit {0})
abort cell = do
  uploads ← chance 250
  elim uploads [
    | true ↦
        in_session session (do act (upload (codes "/upload") wrong_sha1); act (give 0 4096); boom)
    | false ↦ do
      want ← between 1 32
      elim cell.is_h3 [
        | true ↦ in_session session (do
          act (stream_open (codes "/download") [])
          λ w. take_chunks (length w.replies) want 0 w
          act abort_stream)
        | false ↦ in_session session (do
          act (stream_get (codes "/download") [])
          each_chunk (λ got. pure (ltb got want))
          act close_stream)
      ]
  ]
