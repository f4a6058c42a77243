-- ===== src/Chaos/Behaviors/Closing/Targets.antt =====
-- The behaviours that belong to one workload, and those that drop their connection.
use nim_vortex.Prelude.{ℕ, Bool, true, false, leb}
use nim_vortex.Prelude.Bytes.{Bytes}
use nim_vortex.Chaos.Behaviors.{
  Headers, session, websocket, socket, Reply, World, Ended, ok, fails, cancelled, M, ◌>>=◌, call,
  act, swallow, swallow_all, swallow_all_end, then_run, found, look_up, cancel_upload, await_upload,
  leave, abandon, repeat, Cell, is_there,
}
use nim_vortex.Chaos.Behaviors.Vanish.{
  vanish_h3, vanish_raw, stream_away, unless_lost, vanish_h2, vanish_at,
}
use nim_vortex.Chaos.Behaviors.Targeted.{
  drop_or_abandon, vanish_ws, slowread_sse, hold_stream, abort_sse, slice, slowwrite_streamupload,
  cancel_task, vanish_streamupload,
}
use nim_vortex.Chaos.Behaviors.Leaves.{
  Kept, Keeps, Kept-then, bind-Keeps, pure-Keeps, act-Keeps, now-Keeps, wait-Keeps, roll-Keeps,
  between-Keeps, chance-Keeps, doze-Keeps, if-Keeps,
}
use nim_vortex.Chaos.Behaviors.Sessions.{
  swallow-Keeps, swallow_all-Keeps, after-Kept, enter-Keeps, held-Keeps, leave-Keeps, abandon-Keeps,
  in_session-Keeps, each_chunk-Keeps, repeat-Keeps, is_there-Keeps, if_there-Keeps, when-Keeps,
}
use nim_vortex.Chaos.Behaviors.Closing.{dawdle-Keeps, counted-Keeps, chatter-Keeps}

pub slowread_sse-Keeps : Keeps 0 0 slowread_sse
unfolding slowread_sse
slowread_sse-Keeps = bind-Keeps now-Keeps (λ start. bind-Keeps (between-Keeps 5000 20000) (λ budget.
    in_session-Keeps session
      (bind-Keeps (act-Keeps _) (λ u. bind-Keeps (dawdle-Keeps _ 500 2000) (λ v. act-Keeps _)))))

pub hold_stream-Keeps :
    (cell : Cell) (path : Bytes) (hdrs : Headers) → Keeps 0 0 (hold_stream cell path hdrs)
unfolding hold_stream
hold_stream-Keeps cell path hdrs = bind-Keeps (between-Keeps 10000 30000) (λ hold.
    if-Keeps cell.is_h3
      (in_session-Keeps session (
        bind-Keeps (act-Keeps _)
          (λ u. bind-Keeps (act-Keeps _) (λ v. bind-Keeps (wait-Keeps hold) (λ w. act-Keeps _)))))
      (in_session-Keeps session
        (bind-Keeps (act-Keeps _) (λ u. bind-Keeps (wait-Keeps hold) (λ w. act-Keeps _)))))

pub abort_sse-Keeps : Keeps 0 0 abort_sse
unfolding abort_sse
abort_sse-Keeps = bind-Keeps roll-Keeps (λ k. in_session-Keeps session (
    bind-Keeps (act-Keeps _) (λ a. bind-Keeps (between-Keeps 1 3) (λ want.
      bind-Keeps (counted-Keeps want) (λ b. bind-Keeps (act-Keeps _) (λ c.
        bind-Keeps (act-Keeps _)
          (λ d. bind-Keeps (each_chunk-Keeps (λ got. pure-Keeps false)) (λ e. act-Keeps _))))))))

slices-Keeps : (n i : ℕ) → Keeps 0 0 (repeat n i slice)
unfolding slice
slices-Keeps n i = repeat-Keeps n i (λ k. act-Keeps _)

pub slowwrite_streamupload-Keeps : Keeps 0 0 slowwrite_streamupload
unfolding slowwrite_streamupload
slowwrite_streamupload-Keeps = bind-Keeps (between-Keeps 5000 10000) (λ stall.
    bind-Keeps (between-Keeps 2 6) (λ first. bind-Keeps (between-Keeps 2 6) (λ last.
      in_session-Keeps session (
        bind-Keeps (act-Keeps _) (λ a. bind-Keeps (slices-Keeps first 0) (λ b.
          bind-Keeps (wait-Keeps stall)
            (λ c. bind-Keeps (slices-Keeps last first) (λ d. act-Keeps _))))))))

vanish_h3-Keeps :
    {k : ℕ} (slow : Bool) (path : Bytes) (hdrs : Headers) → Keeps 0 k (vanish_h3 slow path hdrs)
unfolding vanish_h3
vanish_h3-Keeps slow path hdrs = held-Keeps session (swallow-Keeps leave-Keeps) (
    bind-Keeps (act-Keeps _) (λ a.
      bind-Keeps (act-Keeps _)
        (λ b. bind-Keeps (when-Keeps slow (doze-Keeps 1000 5000)) (λ c. if_there-Keeps _))))

vanish_raw-Keeps :
    {k : ℕ} (cell : Cell) (slow : Bool) (path : Bytes) (hdrs : Headers)
    → Keeps 0 k (vanish_raw cell slow path hdrs)
unfolding vanish_raw
vanish_raw-Keeps cell slow path hdrs = held-Keeps socket (swallow-Keeps leave-Keeps) (
    bind-Keeps (act-Keeps _) (λ a. bind-Keeps (act-Keeps _) (λ b. bind-Keeps (act-Keeps _) (λ c.
      bind-Keeps (when-Keeps slow (bind-Keeps (doze-Keeps 1000 5000) (λ e. act-Keeps _)))
        (λ d. if_there-Keeps _)))))

stream_away-Keeps :
    (slow : Bool) (path : Bytes) (hdrs : Headers) → Keeps 0 0 (stream_away slow path hdrs)
unfolding stream_away
stream_away-Keeps slow path hdrs = bind-Keeps (act-Keeps _) (λ a.
    bind-Keeps
      (each_chunk-Keeps (λ got.
        bind-Keeps (between-Keeps 1 8)
          (λ n. if-Keeps (leb n got) (pure-Keeps false) (pure-Keeps true))))
      (λ b. bind-Keeps (when-Keeps slow (doze-Keeps 1000 5000)) (λ c.
        bind-Keeps is_there-Keeps (λ there.
          if-Keeps there
            (bind-Keeps (act-Keeps _)
              (λ d. bind-Keeps (swallow-Keeps (act-Keeps _)) (λ e. pure-Keeps true)))
            (pure-Keeps false)))))

unless_lost-Kept :
    (v : World) (r : World × Ended Bool) → Kept 0 0 v r.0 → Kept 1 1 v (unless_lost r).0
unfolding unless_lost
unless_lost-Kept v (w, ok true) p =
    Kept-then 1 1 v w (swallow leave w).0 p ((swallow-Keeps leave-Keeps).keeps w)
unless_lost-Kept v (w, ok false) p = Kept-then 1 1 v w (abandon w).0 p (abandon-Keeps.keeps w)
unless_lost-Kept v (w, fails) p =
    after-Kept 1 1 v (w, fails) (swallow leave) p (swallow-Keeps leave-Keeps)
unless_lost-Kept v (w, cancelled) p =
    after-Kept 1 1 v (w, cancelled) (swallow leave) p (swallow-Keeps leave-Keeps)

vanish_h2-Keeps :
    (slow : Bool) (path : Bytes) (hdrs : Headers) → Keeps 0 1 (vanish_h2 slow path hdrs)
unfolding vanish_h2
vanish_h2-Keeps slow path hdrs = enter-Keeps session (record {
  keeps = λ w.
      unless_lost-Kept w (stream_away slow path hdrs w)
        ((stream_away-Keeps slow path hdrs).keeps w);
})

-- How many connections a behaviour may leave open, where it drops one: none over HTTP/3.
abbrev pub spare : Bool → ℕ
spare true = 0
spare false = 1

vanish_over :
    (cell : Cell) (slow b : Bool) (path : Bytes) (hdrs : Headers)
    → Keeps 0 (spare b) (elim b [
      | true ↦ vanish_h3 slow path hdrs
      | false ↦ elim cell.is_http [
        | true ↦ vanish_raw cell slow path hdrs
        | false ↦ vanish_h2 slow path hdrs
      ]
    ])
vanish_over cell slow true path hdrs = vanish_h3-Keeps slow path hdrs
vanish_over cell slow false path hdrs =
    if-Keeps cell.is_http (vanish_raw-Keeps cell slow path hdrs) (vanish_h2-Keeps slow path hdrs)

pub vanish_at-Keeps :
    (cell : Cell) (path : Bytes) (hdrs : Headers)
    → Keeps 0 (spare cell.is_h3) (vanish_at cell path hdrs)
unfolding vanish_at
vanish_at-Keeps cell path hdrs =
    bind-Keeps (chance-Keeps 500) (λ slow. vanish_over cell slow cell.is_h3 path hdrs)

-- Two ways, of which the second may leave a connection open.
over-Keeps :
    {m n : M (Unit {0})} (b : Bool)
    → Keeps 0 0 m
    → Keeps 0 1 n
    → Keeps 0 (spare b) (elim b [ true ↦ m | false ↦ n ])
over-Keeps true p q = p
over-Keeps false p q = q

-- A step that always returns: what comes behind it is reached.
Returns : {A : Type 0} → World × Ended A → Type 0
Returns (w, ok a) = Unit
Returns (w, fails) = ⊥
Returns (w, cancelled) = ⊥

after_sure-Kept :
    {A B : Type 0} (e k : ℕ) (v : World) (r : World × Ended A) (f : A → M B)
    → Returns r
    → Kept 0 0 v r.0
    → ((a : A) → Keeps e k (f a))
    → Kept e k v (then_run r f).0
unfolding Returns then_run
after_sure-Kept e k v (w, ok a) f sure p q = Kept-then e k v w (f a w).0 p ((q a).keeps w)
after_sure-Kept e k v (w, fails) f sure p q = absurd sure
after_sure-Kept e k v (w, cancelled) f sure p q = absurd sure

sure-Keeps :
    {A B : Type 0}
    → {e k : ℕ} {m : M A} {f : A → M B} → ((w : World) → Returns (m w))
    → Keeps 0 0 m
    → ((a : A) → Keeps e k (f a))
    → Keeps e k (m >>= f)
unfolding ◌>>=◌
sure-Keeps {A} {B} {e} {k} {m} {f} sure p q = record {
  keeps = λ w. after_sure-Kept e k w (m w) f (sure w) (p.keeps w) q;
}

found-Returns : (r : World × Ended Reply) → Returns (found r)
unfolding Returns found
found-Returns (w, ok r) = tt
found-Returns (w, fails) = tt
found-Returns (w, cancelled) = tt

is_there-Returns : (w : World) → Returns (is_there w)
unfolding is_there
is_there-Returns w = found-Returns (call look_up w)

swallow_all_end-Returns : (r : World × Ended (Unit {0})) → Returns (swallow_all_end r)
unfolding Returns swallow_all_end
swallow_all_end-Returns (w, ok u) = tt
swallow_all_end-Returns (w, fails) = tt
swallow_all_end-Returns (w, cancelled) = tt

swallow_all-Returns : (m : M (Unit {0})) (w : World) → Returns (swallow_all m w)
unfolding swallow_all
swallow_all-Returns m w = swallow_all_end-Returns (m w)

then_run-Returns :
    (r : World × Ended (Unit {0})) (m : M (Unit {0}))
    → Returns r
    → ((w : World) → Returns (m w))
    → Returns (then_run r (λ u. m))
unfolding Returns then_run
then_run-Returns (w, ok u) m sure next = next w
then_run-Returns (w, fails) m sure next = absurd sure
then_run-Returns (w, cancelled) m sure next = absurd sure

cancel_task-Returns : (w : World) → Returns (cancel_task w)
unfolding cancel_task ◌>>=◌
cancel_task-Returns w =
    then_run-Returns (swallow_all (act cancel_upload) w) (swallow_all (act await_upload))
      (swallow_all-Returns (act cancel_upload) w) (swallow_all-Returns (act await_upload))

drop_or_abandon-Keeps : Keeps 1 1 drop_or_abandon
unfolding drop_or_abandon
drop_or_abandon-Keeps =
    sure-Keeps is_there-Returns is_there-Keeps (λ there. if-Keeps there leave-Keeps abandon-Keeps)

pub vanish_ws-Keeps : (cell : Cell) → Keeps 0 (spare cell.is_h3) (vanish_ws cell)
unfolding vanish_ws
vanish_ws-Keeps cell =
    over-Keeps cell.is_h3
      (held-Keeps session (swallow-Keeps leave-Keeps) (
        bind-Keeps (act-Keeps _) (λ a.
          bind-Keeps (act-Keeps _)
            (λ b. bind-Keeps (doze-Keeps 100 1000) (λ c. if_there-Keeps _)))))
      (held-Keeps websocket drop_or_abandon-Keeps (
        bind-Keeps (between-Keeps 1 6)
          (λ n. bind-Keeps (chatter-Keeps n) (λ a. doze-Keeps 100 1000))))

cancel_task-Keeps : Keeps 0 0 cancel_task
unfolding cancel_task
cancel_task-Keeps =
    bind-Keeps (swallow_all-Keeps (act-Keeps _)) (λ u. swallow_all-Keeps (act-Keeps _))

pub vanish_streamupload-Keeps :
    (cell : Cell) → Keeps 0 (spare cell.is_h3) (vanish_streamupload cell)
unfolding vanish_streamupload
vanish_streamupload-Keeps cell =
    over-Keeps cell.is_h3
      (held-Keeps session
        (sure-Keeps cancel_task-Returns cancel_task-Keeps (λ u. swallow-Keeps leave-Keeps))
        (bind-Keeps (act-Keeps _) (λ a. bind-Keeps (doze-Keeps 500 2000) (λ b. if_there-Keeps _))))
      (if-Keeps cell.is_http
        (held-Keeps socket (swallow-Keeps leave-Keeps) (
          bind-Keeps (act-Keeps _) (λ a.
            bind-Keeps (act-Keeps _)
              (λ b. bind-Keeps (doze-Keeps 200 1000) (λ c. if_there-Keeps _)))))
        (held-Keeps session abandon-Keeps (
          bind-Keeps (act-Keeps _)
            (λ a. bind-Keeps (doze-Keeps 500 2000) (λ b. cancel_task-Keeps)))))
