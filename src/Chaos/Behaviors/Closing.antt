-- ===== src/Chaos/Behaviors/Closing.antt =====
-- The behaviours end the connections that they open.
pub mod Targets
use nim_vortex.Prelude.{
  ℕ, zero, suc, ◌+◌, ◌*◌, ◌%◌, Bool, true, false, List, [], ◌∷◌, ◌++◌, length, ltb, leb,
  if◌then◌else◌, arith,
}
use nim_vortex.Prelude.Bytes.{Bytes, codes}
use nim_vortex.Prelude.Text.{show}
use nim_vortex.Ws.{op_text, op_close}
use nim_vortex.Chaos.Behaviors.{
  Headers, Door, session, websocket, socket, Kind, head, chunk, over, error, Reply, World, Ended,
  ok, fails, cancelled, M, ◌>>=◌, ◌>>◌, pure, skip, call, act, now, wait, roll, between, chance,
  doze, swallow, swallow_all, after, finally, enter, leave, abandon, held, in_session, each_chunk,
  repeat, Cell, is_there, if_there, when,
}
use nim_vortex.Chaos.Behaviors.Generic.{
  dawdle, slowread, drip, slowwrite, idle, take_chunks, boom, abort,
}
use nim_vortex.Chaos.Behaviors.Vanish.{
  vanish_h3, vanish_raw, stream_away, unless_lost, vanish_h2, vanish_at, vanish, vanish_sse,
}
use nim_vortex.Chaos.Behaviors.Targeted.{
  numbered, chatter, slowread_ws, abort_ws, drop_or_abandon, vanish_ws, slowread_sse, hold_stream,
  idle_sse, idle_streamdownload, abort_sse, slice, slowwrite_streamupload, cancel_task,
  vanish_streamupload,
}
use nim_vortex.Chaos.Behaviors.Leaves.{
  Kept, Keeps, Kept-refl, Kept-then, bind-Keeps, pure-Keeps, call-Keeps, act-Keeps, now-Keeps,
  wait-Keeps, roll-Keeps, between-Keeps, chance-Keeps, doze-Keeps, if-Keeps, Kept-weaken,
}
use nim_vortex.Chaos.Behaviors.Sessions.{
  swallow-Keeps, swallow_all-Keeps, after-Kept, finally-Keeps, enter-Keeps, held-Keeps, leave-Keeps,
  abandon-Keeps, in_session-Keeps, each_chunk-Keeps, repeat-Keeps, is_there-Keeps, if_there-Keeps,
  when-Keeps,
}

pub dawdle-Keeps : (deadline lo hi : ℕ) → Keeps 0 0 (dawdle deadline lo hi)
unfolding dawdle
dawdle-Keeps deadline lo hi = each_chunk-Keeps (λ got. bind-Keeps now-Keeps (λ t.
    if-Keeps (leb deadline t) (pure-Keeps false)
      (bind-Keeps (doze-Keeps lo hi) (λ u. pure-Keeps true))))

pub slowread-Keeps : Keeps 0 0 slowread
unfolding slowread
slowread-Keeps = bind-Keeps (chance-Keeps 250) (λ sse.
    bind-Keeps (between-Keeps 5000 15000) (λ budget. bind-Keeps now-Keeps (λ start.
      in_session-Keeps session
        (bind-Keeps (act-Keeps _) (λ u. bind-Keeps (dawdle-Keeps _ 100 500) (λ v. act-Keeps _))))))

drip-Keeps : (fuel deadline off : ℕ) → Keeps 0 0 (drip fuel deadline off)
unfolding drip
drip-Keeps zero deadline off =
    bind-Keeps now-Keeps (λ t. if-Keeps (ltb t deadline) (act-Keeps _) (pure-Keeps tt))
drip-Keeps (suc fuel) deadline off = bind-Keeps now-Keeps (λ t.
    if-Keeps (ltb t deadline)
      (bind-Keeps (act-Keeps _)
        (λ u. bind-Keeps (doze-Keeps 50 250) (λ v. drip-Keeps fuel deadline (off + 4096))))
      (pure-Keeps tt))

pub slowwrite-Keeps : Keeps 0 0 slowwrite
unfolding slowwrite
slowwrite-Keeps = bind-Keeps (between-Keeps 5000 15000) (λ budget. bind-Keeps now-Keeps (λ start.
    in_session-Keeps session (
      bind-Keeps (act-Keeps _) (λ u.
        bind-Keeps (record { keeps = λ w. (drip-Keeps (length w.replies) _ 0).keeps w })
          (λ v. act-Keeps _)))))

pub idle-Keeps : (cell : Cell) → Keeps 0 0 (idle cell)
unfolding idle
idle-Keeps cell = bind-Keeps (between-Keeps 10000 30000) (λ hold.
    bind-Keeps (chance-Keeps 500) (λ want_ws.
      if-Keeps want_ws
        (if-Keeps cell.is_h3
          (in_session-Keeps session
            (bind-Keeps (act-Keeps _) (λ u. finally-Keeps (act-Keeps _) (wait-Keeps hold))))
          (in_session-Keeps websocket (wait-Keeps hold)))
        (in_session-Keeps session (bind-Keeps (act-Keeps _) (λ u. wait-Keeps hold)))))

kind-Keeps :
    {m n o p : M (Unit {0})} (x : Kind)
    → Keeps 0 0 m
    → Keeps 0 0 n
    → Keeps 0 0 o
    → Keeps 0 0 p
    → Keeps 0 0 (elim x [ head ↦ m | chunk ↦ n | over ↦ o | error ↦ p ])
kind-Keeps head a b c d = a
kind-Keeps chunk a b c d = b
kind-Keeps over a b c d = c
kind-Keeps error a b c d = d

take_chunks-Keeps : (fuel want got : ℕ) → Keeps 0 0 (take_chunks fuel want got)
unfolding take_chunks
take_chunks-Keeps zero want got = if-Keeps (ltb got want) (act-Keeps _) (pure-Keeps tt)
take_chunks-Keeps (suc fuel) want got =
    if-Keeps (ltb got want)
      (bind-Keeps (call-Keeps _) (λ r.
        kind-Keeps r.kind (take_chunks-Keeps fuel want got) (take_chunks-Keeps fuel want (suc got))
          (pure-Keeps tt) (pure-Keeps tt)))
      (pure-Keeps tt)

boom-Keeps : Keeps 0 0 boom
unfolding boom
boom-Keeps = record { keeps = λ w. Kept-refl 0 w }

pub counted-Keeps : (want : ℕ) → Keeps 0 0 (each_chunk (λ got. pure (ltb got want)))
counted-Keeps want = each_chunk-Keeps (λ got. pure-Keeps _)

pub abort-Keeps : (cell : Cell) → Keeps 0 0 (abort cell)
unfolding abort
abort-Keeps cell = bind-Keeps (chance-Keeps 250) (λ uploads.
    if-Keeps uploads
      (in_session-Keeps session
        (bind-Keeps (act-Keeps _) (λ u. bind-Keeps (act-Keeps _) (λ v. boom-Keeps))))
      (bind-Keeps (between-Keeps 1 32) (λ want.
        if-Keeps cell.is_h3
          (in_session-Keeps session (
            bind-Keeps (act-Keeps _) (λ u.
              bind-Keeps
                (record { keeps = λ w. (take_chunks-Keeps (length w.replies) want 0).keeps w })
                (λ v. act-Keeps _))))
          (in_session-Keeps session
            (bind-Keeps (act-Keeps _) (λ u. bind-Keeps (counted-Keeps want) (λ v. act-Keeps _)))))))

pub slowread_ws-Keeps : (cell : Cell) → Keeps 0 0 (slowread_ws cell)
unfolding slowread_ws numbered
slowread_ws-Keeps cell = bind-Keeps (between-Keeps 8 32) (λ burst.
    bind-Keeps (between-Keeps 3000 10000) (λ hold.
      if-Keeps cell.is_h3
        (in_session-Keeps session (
          bind-Keeps (act-Keeps _) (λ u.
            bind-Keeps (repeat-Keeps burst 0 (λ n. act-Keeps _))
              (λ v. bind-Keeps (wait-Keeps hold) (λ w. act-Keeps _)))))
        (in_session-Keeps websocket
          (bind-Keeps (repeat-Keeps burst 0 (λ n. act-Keeps _)) (λ v. wait-Keeps hold)))))

pub chatter-Keeps : (n : ℕ) → Keeps 0 0 (repeat n 0 chatter)
unfolding chatter
chatter-Keeps n = repeat-Keeps n 0 (λ k. act-Keeps _)

pub abort_ws-Keeps : (cell : Cell) → Keeps 0 0 (abort_ws cell)
unfolding abort_ws
abort_ws-Keeps cell =
    if-Keeps cell.is_h3
      (in_session-Keeps session (
        bind-Keeps (act-Keeps _) (λ a. bind-Keeps (between-Keeps 2 8) (λ n.
          bind-Keeps (chatter-Keeps n)
            (λ b. bind-Keeps (act-Keeps _) (λ c. bind-Keeps (act-Keeps _) (λ d. act-Keeps _)))))))
      (in_session-Keeps websocket (
        bind-Keeps (between-Keeps 2 8)
          (λ n. bind-Keeps (chatter-Keeps n) (λ b. bind-Keeps (act-Keeps _) (λ c. act-Keeps _)))))
