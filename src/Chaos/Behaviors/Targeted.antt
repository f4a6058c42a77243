-- ===== src/Chaos/Behaviors/Targeted.antt =====
-- The behaviours of conformance/stress/client/chaos.py that belong to one workload, and the table BEHAVIORS.
use nim_vortex.Prelude.{ℕ, zero, suc, ◌+◌, ◌*◌, ◌%◌, true, false, List, [], ◌∷◌, ◌++◌, ltb}
use nim_vortex.Prelude.Bytes.{Bytes, codes}
use nim_vortex.Prelude.Text.{show}
use nim_vortex.Chaos.{Key, generic}
use nim_vortex.Transport.{gen_chunk}
use nim_vortex.Ws.{op_text, op_close}
use nim_vortex.Chaos.Behaviors.{
  Headers, session, websocket, socket, stream_get, stream_open, upload, close_stream, take_item,
  abort_stream, give, start_upload, cancel_upload, await_upload, ws_send, ws_open, ws_recv,
  ws_close, drop_transport, linger_zero, write, drain, M, ◌>>=◌, ◌>>◌, pure, act, now, wait, roll,
  between, doze, swallow, swallow_all, leave, abandon, held, in_session, each_chunk, repeat,
  event_stream, wrong_sha1, Cell, is_there, if_there,
}
use nim_vortex.Chaos.Behaviors.Generic.{dawdle, slowread, slowwrite, idle, abort}
use nim_vortex.Chaos.Behaviors.Vanish.{crlf, request_lines, vanish, vanish_sse}

unfoldable pub numbered : ℕ → M (Unit {0})
numbered n = act (ws_send op_text (codes "chaos-" ++ show n))

unfoldable pub chatter : ℕ → M (Unit {0})
chatter n = act (ws_send op_text (codes "chaos"))

unfoldable pub slowread_ws : Cell → M (Unit {0})
slowread_ws cell = do
  burst ← between 8 32
  hold ← between 3000 10000
  elim cell.is_h3 [
    | true ↦ in_session session (do act ws_open; repeat burst 0 numbered; wait hold; act ws_close)
    | false ↦ in_session websocket (do repeat burst 0 numbered; wait hold)
  ]

unfoldable pub abort_ws : Cell → M (Unit {0})
abort_ws cell = elim cell.is_h3 [
  | true ↦ in_session session (do
    act ws_open
    n ← between 2 8
    repeat n 0 chatter
    act ws_recv
    act (ws_send op_close [])
    act ws_close)
  | false ↦ in_session websocket (do n ← between 2 8; repeat n 0 chatter; act ws_recv; act ws_close)
]

-- `if tr is not None: tr.abort()`, and else the connection is not ended.
unfoldable pub drop_or_abandon : M (Unit {0})
drop_or_abandon = do there ← is_there; elim there [ true ↦ leave | false ↦ abandon ]

unfoldable pub vanish_ws : Cell → M (Unit {0})
vanish_ws cell = elim cell.is_h3 [
  | true ↦ held session (swallow leave) (do
    act ws_open
    act (ws_send op_text (codes "chaos"))
    doze 100 1000
    if_there drop_transport)
  | false ↦ held websocket drop_or_abandon (do n ← between 1 6; repeat n 0 chatter; doze 100 1000)
]

unfoldable pub slowread_sse : M (Unit {0})
slowread_sse = do
  start ← now
  budget ← between 5000 20000
  in_session session (do
    act (stream_get (codes "/sse") event_stream)
    dawdle (start + budget) 500 2000
    act close_stream)

-- What b_idle_sse and b_idle_streamdownload do with their path.
unfoldable pub hold_stream : Cell → Bytes → Headers → M (Unit {0})
hold_stream cell path hdrs = do
  hold ← between 10000 30000
  elim cell.is_h3 [
    | true ↦
        in_session session
          (do act (stream_open path hdrs); act take_item; wait hold; act abort_stream)
    | false ↦ in_session session (do act (stream_get path hdrs); wait hold; act close_stream)
  ]

unfoldable pub idle_sse : Cell → M (Unit {0})
idle_sse cell = hold_stream cell (codes "/sse") event_stream

unfoldable pub idle_streamdownload : Cell → M (Unit {0})
idle_streamdownload cell = hold_stream cell (codes "/download") []

-- `rng.choice([…])` of the four ids
unfoldable pub bad_id : ℕ → Bytes
bad_id zero = codes "banana"
bad_id (suc zero) = codes "-1"
bad_id (suc (suc zero)) = codes "999999"
bad_id (suc (suc (suc k))) = []

unfoldable pub abort_sse : M (Unit {0})
abort_sse = do
  k ← roll
  in_session session (do
    act (stream_get (codes "/sse") event_stream)
    want ← between 1 3
    each_chunk (λ got. pure (ltb got want))
    act close_stream
    act (stream_get (codes "/sse") (event_stream ++ (codes "last-event-id", bad_id (k % 4)) ∷ []))
    each_chunk (λ got. pure false)
    act close_stream)

unfoldable pub slice : ℕ → M (Unit {0})
slice i = act (give (i * 4096) 4096)

unfoldable pub slowwrite_streamupload : M (Unit {0})
slowwrite_streamupload = do
  stall ← between 5000 10000
  head ← between 2 6
  tail ← between 2 6
  in_session session (do
    act (upload (codes "/upload") wrong_sha1)
    repeat head 0 slice
    wait stall
    repeat tail head slice
    act await_upload)

-- `task.cancel()`, and `await task` with what it raises swallowed.
unfoldable pub cancel_task : M (Unit {0})
cancel_task = do swallow_all (act cancel_upload); swallow_all (act await_upload)

unfoldable pub partial_post : Cell → Bytes
partial_post cell =
    request_lines cell (codes "POST /upload")
    ++ (codes "x-sha1: 0000000000000000000000000000000000000000"
        ++ (crlf ++ (codes "content-length: 1048576" ++ (crlf ++ (crlf ++ gen_chunk 0 16384)))))

unfoldable pub vanish_streamupload : Cell → M (Unit {0})
vanish_streamupload cell = elim cell.is_h3 [
  | true ↦
      held session (do cancel_task; swallow leave)
        (do act (start_upload wrong_sha1); doze 500 2000; if_there drop_transport)
  | false ↦ elim cell.is_http [
    | true ↦
        held socket (swallow leave)
          (do act (write (partial_post cell)); act drain; doze 200 1000; if_there linger_zero)
    | false ↦ held session abandon (do act (start_upload wrong_sha1); doze 500 2000; cancel_task)
  ]
]

unfoldable pub table : Cell → List (Key × M (Unit {0}))
table cell =
    ((codes "slowread", generic), slowread)
    ∷ ((codes "slowwrite", generic), slowwrite)
    ∷ ((codes "idle", generic), idle cell)
    ∷ ((codes "abort", generic), abort cell)
    ∷ ((codes "vanish", generic), vanish cell)
    ∷ ((codes "slowread", codes "ws"), slowread_ws cell)
    ∷ ((codes "abort", codes "ws"), abort_ws cell)
    ∷ ((codes "vanish", codes "ws"), vanish_ws cell)
    ∷ ((codes "slowread", codes "sse"), slowread_sse)
    ∷ ((codes "idle", codes "sse"), idle_sse cell)
    ∷ ((codes "abort", codes "sse"), abort_sse)
    ∷ ((codes "vanish", codes "sse"), vanish_sse cell)
    ∷ ((codes "slowwrite", codes "streamupload"), slowwrite_streamupload)
    ∷ ((codes "vanish", codes "streamupload"), vanish_streamupload cell)
    ∷ ((codes "idle", codes "streamdownload"), idle_streamdownload cell)
    ∷ []
