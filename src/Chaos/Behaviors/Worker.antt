-- ===== src/Chaos/Behaviors/Worker.antt =====
-- `worker` of conformance/stress/client/chaos.py, over the behaviours of the table.
pub mod Closes
use nim_vortex.Prelude.{
  ℕ, zero, suc, ◌%◌, Bool, true, false, Option, none, some, List, [], ◌∷◌, length, get_elem?, ltb,
  if◌then◌else◌,
}
use nim_vortex.Prelude.Bytes.{Bytes, codes}
use nim_vortex.Chaos.{Key, Tally, equal_key, worker_round}
use nim_vortex.Chaos.Behaviors.{
  World, Ended, ok, fails, cancelled, M, then_run, ◌>>=◌, ◌>>◌, pure, now, roll, doze, Cell,
}
use nim_vortex.Chaos.Behaviors.Targeted.{table}

-- A KeyError, or no item to choose from.
unfoldable pub missing : {A : Type 0} → M A
missing w = (w, fails)

-- `BEHAVIORS[key](rng)`
unfoldable pub run_key : Key → List (Key × M (Unit {0})) → M (Unit {0})
run_key k [] = missing
run_key k ((j, m) ∷ t) = elim (equal_key k j) [ true ↦ m | false ↦ run_key k t ]

-- `_ok[key] += 1`, or `except Exception: _err[key] += 1`
unfoldable pub tallied : Tally → Key → World × Ended (Unit {0}) → World × Ended Tally
tallied t k (w, ok u) = (w, ok (worker_round t (k, true)))
tallied t k (w, fails) = (w, ok (worker_round t (k, false)))
tallied t k (w, cancelled) = (w, cancelled)

-- `rng.choice(pool)`
unfoldable pub chosen : List Key → ℕ → M Key
chosen pool n = elim (get_elem? pool (n % length pool)) [ none ↦ missing | some k ↦ pure k ]

unfoldable pub round : Cell → List Key → Tally → M Tally
round cell pool t = do
  n ← roll
  key ← chosen pool n
  t' ← (λ w. tallied t key (run_key key (table cell) w))
  doze 0 500
  pure t'

unfoldable pub stop : {A : Type 0} → M A
stop w = (w, cancelled)

-- The loop. On fuel as much as there are replies, since the sleep of a round takes one: without fuel there
-- is none left, and whatever a round would do is cancelled.
unfoldable pub rounds : ℕ → Cell → List Key → ℕ → Tally → M Tally
rounds zero cell pool deadline t = do
  now_ ← now
  elim (ltb now_ deadline) [ true ↦ stop | false ↦ pure t ]
rounds (suc fuel) cell pool deadline t = do
  now_ ← now
  elim (ltb now_ deadline) [
    | true ↦ do t' ← round cell pool t; rounds fuel cell pool deadline t'
    | false ↦ pure t
  ]

unfoldable pub worker : Cell → List Key → ℕ → Tally → M Tally
worker cell pool deadline t w = rounds (length w.replies) cell pool deadline t w
