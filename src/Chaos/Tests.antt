-- ===== src/Chaos/Tests.antt =====
-- Runs of the chaos sidecar.
use nim_vortex.Prelude.{
  ℕ, zero, suc, ◌+◌, ◌≡◌, refl, Bool, true, false, ◌&&◌, none, some, List, [], ◌∷◌,
}
use nim_vortex.Prelude.Bytes.{Bytes, codes, equal}
use nim_vortex.Prelude.Text.{
  contains, is_space, lstrip, keep_or_drop, rstrip, strip, lower, extend_first, split_on,
}
use nim_vortex.Chaos.{
  chosen, append_new, choose_name, choose_names, parse_behaviors, Key, generic, behaviors,
  equal_key, has_key, targeted, targeted_pool, style_pool, build_pool, Tally, count_key,
  worker_rounds,
}
use nim_vortex.Chaos.Styles.{named, Chooses, choose_names-Chooses}
use nim_vortex.Chaos.Pool.{is_live, has_key-build_pool, has_key-parse_behaviors}
use nim_vortex.Chaos.Tallies.{rounds_of, count_key-worker_rounds}
use nim_vortex.Chaos.Fds.{Attempt, unreadable, stats, Env, World, settle_ms, sample_fds, settle_fds}
use nim_vortex.Chaos.Fds.Waits.{WaitsFor}
use nim_vortex.Chaos.Fds.Settle.{Settles, settle_fds-Settles}
use nim_vortex.Chaos.Run.{Load, run, main}
use nim_vortex.Chaos.Run.Verdict.{Judges, run-Judges}
use nim_vortex.Chaos.Run.Codes.{Explains, main_lem}

abbrev names : List Bytes
names = codes " idle" ∷ codes "" ∷ codes "abort " ∷ codes "idle" ∷ []

choose_names-Chooses_example : Chooses [] (named names) (choose_names names [])
choose_names-Chooses_example = choose_names-Chooses names [] tt tt

two_styles : parse_behaviors (codes "Idle, abort") ≡ chosen (codes "idle" ∷ codes "abort" ∷ [])
unfolding parse_behaviors choose_names choose_name append_new contains equal is_space lstrip
    keep_or_drop rstrip strip lower extend_first split_on
two_styles = refl

in_pool :
    has_key
      (codes "idle", codes "sse")
      (build_pool (codes "sse") (codes "idle" ∷ codes "abort" ∷ []))
    ≡ true
unfolding has_key build_pool style_pool targeted_pool targeted equal_key equal
in_pool = refl

has_key-build_pool_example :
    has_key (codes "idle", codes "ws") (build_pool (codes "ws") (codes "idle" ∷ [])) ≡ (
      contains (codes "idle") (codes "idle" ∷ [])
      && is_live (codes "ws") (codes "idle", codes "ws"))
has_key-build_pool_example =
    has_key-build_pool (codes "ws") (codes "idle" ∷ []) (codes "idle", codes "ws")

has_key-parse_behaviors_example : has_key (codes "idle", codes "sse") behaviors ≡ true
has_key-parse_behaviors_example =
    has_key-parse_behaviors (codes "sse") (codes "Idle, abort") (codes "idle" ∷ codes "abort" ∷ [])
      (codes "idle", codes "sse") two_styles in_pool

abbrev rounds : List (Key × Bool)
rounds = ((codes "idle", generic), true) ∷ ((codes "idle", generic), false) ∷ []

abbrev no_tally : Tally
no_tally = record { ok = []; err = [] }

idle_tallied :
    (count_key (codes "idle", generic) (worker_rounds no_tally rounds).ok
      ≡ 0 + rounds_of (codes "idle", generic) true rounds)
    × (count_key (codes "idle", generic) (worker_rounds no_tally rounds).err
        ≡ 0 + rounds_of (codes "idle", generic) false rounds)
unfolding count_key
idle_tallied = count_key-worker_rounds (codes "idle", generic) no_tally rounds

-- A server that answers its first sample with 50 open descriptors, fails the second, and then has 90.
abbrev answers : ℕ → Attempt
answers zero = stats (some 50)
answers (suc zero) = unreadable
answers (suc (suc n)) = stats (some 90)

abbrev env : Env
env = record { answer = answers; takes = λ n. 20 }

abbrev load : Load
load = record { warmed = λ i. 64; warm_ms = λ i. 500; worked = 3; work_ms = 10000; wedged = false }

abbrev world : World
world = record { clock = 0; connects = 0; attempts = 0 }

settle_fds-Settles_example :
    Settles env 0 50 (0 + settle_ms) (settle_fds 50 env world)
    × WaitsFor env 50
        (0 + settle_ms)
        (sample_fds 5 1000 env world).0
        (sample_fds 5 1000 env world).1
        (settle_fds 50 env world)
settle_fds-Settles_example = settle_fds-Settles 50 env world

run-Judges_example : Judges load env (run 15000 load env world)
run-Judges_example = run-Judges 15000 load env world

main_lem_example :
    Explains
      (parse_behaviors (codes "all"))
      none
      load
      env
      (main (codes "all") none 15000 load env world)
main_lem_example = main_lem (codes "all") none 15000 load env world
