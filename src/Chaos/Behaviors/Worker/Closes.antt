-- ===== src/Chaos/Behaviors/Worker/Closes.antt =====
-- What a worker leaves open.
use nim_vortex.Prelude.{
  ℕ, zero, suc, ◌+◌, ◌%◌, ◌≤◌, Bool, true, false, Option, none, some, List, [], ◌∷◌, length,
  get_elem?, ltb, arith,
}
use nim_vortex.Chaos.{Key, Tally, equal_key}
use nim_vortex.Chaos.Behaviors.{World, Ended, ok, fails, cancelled, M, pure, Cell}
use nim_vortex.Chaos.Behaviors.Vanish.{vanish, vanish_sse}
use nim_vortex.Chaos.Behaviors.Targeted.{table, idle_sse, idle_streamdownload}
use nim_vortex.Chaos.Behaviors.Worker.{
  missing, run_key, tallied, chosen, round, stop, rounds, worker,
}
use nim_vortex.Chaos.Behaviors.Leaves.{
  Kept, Keeps, Kept-refl, Kept-weaken, bind-Keeps, chain-Keeps, pure-Keeps, now-Keeps, roll-Keeps,
  doze-Keeps, if-Keeps,
}
use nim_vortex.Chaos.Behaviors.Closing.{
  slowread-Keeps, slowwrite-Keeps, idle-Keeps, abort-Keeps, slowread_ws-Keeps, abort_ws-Keeps,
}
use nim_vortex.Chaos.Behaviors.Closing.Targets.{
  slowread_sse-Keeps, hold_stream-Keeps, abort_sse-Keeps, slowwrite_streamupload-Keeps,
  vanish_at-Keeps, vanish_ws-Keeps, vanish_streamupload-Keeps, spare,
}

-- Every behaviour of a table leaves `k` connections at most.
AllKeep : ℕ → List (Key × M (Unit {0})) → Type 0
AllKeep k [] = Unit
AllKeep k ((j, m) ∷ t) = Keeps 0 k m × AllKeep k t

Keeps-weaken : {A : Type 0} → {k j : ℕ} {m : M A} → k ≤ j → Keeps 0 k m → Keeps 0 j m
Keeps-weaken {A} {k} {j} {m} le p = record {
  keeps = λ w. Kept-weaken 0 k j w (m w).0 le (p.keeps w);
}

any : {m : M (Unit {0})} (k : ℕ) → Keeps 0 0 m → Keeps 0 k m
any k p = Keeps-weaken (omega arith) p

table-AllKeep : (cell : Cell) → AllKeep (spare cell.is_h3) (table cell)
unfolding AllKeep table idle_sse idle_streamdownload vanish vanish_sse
table-AllKeep cell =
    let k = spare cell.is_h3 in
    (
      any k slowread-Keeps,
      (
        any k slowwrite-Keeps,
        (
          any k (idle-Keeps cell),
          (
            any k (abort-Keeps cell),
            (
              vanish_at-Keeps cell _ _,
              (
                any k (slowread_ws-Keeps cell),
                (
                  any k (abort_ws-Keeps cell),
                  (
                    vanish_ws-Keeps cell,
                    (
                      any k slowread_sse-Keeps,
                      (
                        any k (hold_stream-Keeps cell _ _),
                        (
                          any k abort_sse-Keeps,
                          (
                            vanish_at-Keeps cell _ _,
                            (
                              any k slowwrite_streamupload-Keeps,
                              (
                                vanish_streamupload-Keeps cell,
                                (any k (hold_stream-Keeps cell _ _), tt),
                              ),
                            ),
                          ),
                        ),
                      ),
                    ),
                  ),
                ),
              ),
            ),
          ),
        ),
      ),
    )

missing-Keeps : {A : Type 0} → {k : ℕ} → Keeps 0 k (missing {A = A})
unfolding missing
missing-Keeps {A} {k} = record { keeps = λ w. Kept-refl k w }

run_key-Keeps :
    {k : ℕ} (key : Key) (t : List (Key × M (Unit {0}))) → AllKeep k t → Keeps 0 k (run_key key t)
unfolding AllKeep run_key
run_key-Keeps key [] h = missing-Keeps
run_key-Keeps key ((j, m) ∷ t) (p, h) = if-Keeps (equal_key key j) p (run_key-Keeps key t h)

tallied-Kept :
    (k : ℕ) (t : Tally) (key : Key) (v : World) (r : World × Ended (Unit {0}))
    → Kept 0 k v r.0
    → Kept 0 k v (tallied t key r).0
unfolding tallied
tallied-Kept k t key v (w, ok u) p = p
tallied-Kept k t key v (w, fails) p = p
tallied-Kept k t key v (w, cancelled) p = p

picked-Keeps :
    (o : Option Key)
    → Keeps {A = Key} 0 0 (elim o as (λ x. M Key) [ none ↦ missing | some k ↦ pure k ])
picked-Keeps none = missing-Keeps
picked-Keeps (some k) = pure-Keeps k

chosen-Keeps : (pool : List Key) (n : ℕ) → Keeps 0 0 (chosen pool n)
unfolding chosen
chosen-Keeps pool n = picked-Keeps (get_elem? pool (n % length pool))

round-Keeps :
    (cell : Cell) (pool : List Key) (t : Tally) → Keeps 0 (spare cell.is_h3) (round cell pool t)
unfolding round
round-Keeps cell pool t =
    let k = spare cell.is_h3 in
    bind-Keeps roll-Keeps (λ n. bind-Keeps (chosen-Keeps pool n) (λ key.
      chain-Keeps k 0 k (omega arith)
        (record {
          keeps = λ w.
              tallied-Kept k t key w (run_key key (table cell) w)
                ((run_key-Keeps key (table cell) (table-AllKeep cell)).keeps w);
        })
        (λ t'. bind-Keeps (doze-Keeps 0 500) (λ u. pure-Keeps t'))))

-- The connections that a worker may leave open: none over HTTP/3, and else one in a round.
pub allowed : Bool → ℕ → ℕ
allowed true n = 0
allowed false n = n

spare-allowed : (b : Bool) (n : ℕ) → spare b + allowed b n ≤ allowed b (suc n)
unfolding allowed
spare-allowed true n = omega arith
spare-allowed false n = omega arith

stop-Keeps : {A : Type 0} → {k : ℕ} → Keeps 0 k (stop {A = A})
unfolding stop
stop-Keeps {A} {k} = record { keeps = λ w. Kept-refl k w }

rounds-Keeps :
    (fuel : ℕ) (cell : Cell) (pool : List Key) (deadline : ℕ) (t : Tally)
    → Keeps 0 (allowed cell.is_h3 fuel) (rounds fuel cell pool deadline t)
unfolding rounds
rounds-Keeps zero cell pool deadline t =
    bind-Keeps now-Keeps (λ now_. if-Keeps (ltb now_ deadline) stop-Keeps (pure-Keeps t))
rounds-Keeps (suc fuel) cell pool deadline t = bind-Keeps now-Keeps (λ now_.
    if-Keeps (ltb now_ deadline)
      (chain-Keeps (spare cell.is_h3) (allowed cell.is_h3 fuel) (allowed cell.is_h3 (suc fuel))
        (spare-allowed cell.is_h3 fuel) (round-Keeps cell pool t)
        (λ t'. rounds-Keeps fuel cell pool deadline t'))
      (pure-Keeps t))

-- However the server and the network answer, and wherever a worker is cancelled: `connects[0]` has risen by
-- the connections that the worker opened, and each of these has been ended, or is one that its behaviour
-- left open. None is left open over HTTP/3; over the other transports as many may be as the environment
-- has replies, of which a round takes one at least.
pub worker-Kept :
    (cell : Cell) (pool : List Key) (deadline : ℕ) (t : Tally) (w : World)
    → Kept 0 (allowed cell.is_h3 (length w.replies)) w (worker cell pool deadline t w).0
unfolding worker
worker-Kept cell pool deadline t w = (rounds-Keeps (length w.replies) cell pool deadline t).keeps w
