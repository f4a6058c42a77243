-- ===== src/Chaos/Run.antt =====
-- `run` and `main` of conformance/stress/client/chaos.py: the order of the steps, and the exit code.
pub mod Verdict
pub mod Codes
use nim_vortex.Prelude.{
  ℕ, zero, suc, ◌+◌, ◌-◌, ◌*◌, ◌/◌, ◌%◌, ◌^◌, ◌≤◌, ◌<◌, min, max, ◌≡◌, ◌≢◌, ◌⊎◌, inl, inr, ◌↔◌,
  refl, sym, ap, ◌∙◌, Bool, true, false, not, ◌&&◌, ◌||◌, Option, none, some, List, [], ◌∷◌, ◌++◌,
  map, append-nil, append_assoc, length, get_elem?, get_or, take, drop, replicate, ltb, leb, ◌==◌,
  if◌then◌else◌, arith, ltb→lt, lt→ltb, leb→le, ==_iff, Bool-cases, Option-cases, length-append,
  length-take, length-drop, take-append-drop, take-append, drop-append, drop-nil, drop-drop,
  get_or-drop, get_or-append_left, drop-append_left, take-append_left, slice-append_left, drop_all,
}
use nim_vortex.Prelude.Bytes.{Bytes}
use nim_vortex.Chaos.{Choice, chosen, exit_two, parse_behaviors}
use nim_vortex.Chaos.Fds.{
  Env, World, sleep, Sample, never, missing_fd, fds, sample_fds, sample_fds_strict, slack, Settled,
  settled, spent, settle_fds,
}

-- What the rest of the run does to the world: how many sessions the n-th burst of `warm_baseline`
-- opens and how long it takes, and the same of the workers, who may also outlive WATCHDOG.
pub record Load : Type 0 where
  pub warmed : ℕ → ℕ
  pub warm_ms : ℕ → ℕ
  pub worked : ℕ
  pub work_ms : ℕ
  pub wedged : Bool

-- The returns of `run`, with the baseline and the final count where they are compared, and the
-- TypeError that `main` catches; `exhausted` is the fuel of `settle_fds`.
pub data Exit : Type 0 where
  passed : ℕ → ℕ → Exit
  fd_leak : ℕ → ℕ → Exit
  no_fd_field : Exit
  no_final_sample : Exit
  watchdog : Exit
  never_connected : Exit
  type_error : Exit
  exhausted : Exit

-- `warm_baseline()`: its burst, and the two seconds it waits for the connections to go.
unfoldable pub warm_baseline : Load → ℕ → World → World
warm_baseline load i w = record w {
  clock = w.clock + load.warm_ms i + 2000;
  connects = w.connects + load.warmed i;
}

-- The loop over `range(10)` that warms up: `break` once a session was opened.
unfoldable pub warm_loop : ℕ → ℕ → Load → World → World
warm_loop zero i load w = w
warm_loop (suc left) i load w =
    let v = warm_baseline load i w in
    let rest = warm_loop left (suc i) load (sleep 1000 v) in if ltb 0 v.connects then v else rest

-- The tests of `run` behind the final sample, in their order. With no baseline, `settle_fds` compares a
-- sample that it has with `None + SLACK`.
unfoldable pub compare_fds : ℕ → ℕ → Exit
compare_fds baseline n = if ltb (baseline + slack) n then fd_leak baseline n else passed baseline n

unfoldable pub verdict : ℕ → Option ℕ → World → Exit
verdict baseline none w = if w.connects == 0 then never_connected else no_final_sample
verdict baseline (some n) w = if w.connects == 0 then never_connected else compare_fds baseline n

unfoldable pub no_baseline : Option ℕ → World → Exit
no_baseline none w = if w.connects == 0 then never_connected else no_final_sample
no_baseline (some n) w = type_error

unfoldable pub judge : ℕ → Settled → Exit
judge baseline (settled final w) = verdict baseline final w
judge baseline spent = exhausted

-- The drain is over: the final samples and the verdict.
unfoldable pub after_drain : Option ℕ → Env → World → Exit
after_drain none env w = let (final, w') = sample_fds 5 1000 env w in no_baseline final w'
after_drain (some n) env w = judge n (settle_fds n env w)

-- The workers, whose time and sessions count, under the watchdog; then the drain.
unfoldable pub work : Load → World → World
work load w = record w { clock = w.clock + load.work_ms; connects = w.connects + load.worked }

unfoldable pub induce : ℕ → Load → Env → Option ℕ → World → Exit
induce drain load env baseline w =
    if load.wedged then watchdog else after_drain baseline env (sleep drain (work load w))

unfoldable pub after_baseline : ℕ → Load → Env → Sample → World → Exit
after_baseline drain load env missing_fd w = no_fd_field
after_baseline drain load env never w = induce drain load env none w
after_baseline drain load env (fds n) w = induce drain load env (some n) w

-- `run(enabled)`, where `drain` is DRAIN in milliseconds.
unfoldable pub run : ℕ → Load → Env → World → Exit
run drain load env w =
    let (baseline, v) = sample_fds_strict 10 1000 env (warm_loop 10 0 load w) in
    after_baseline drain load env baseline v

-- How `main` ends: with an exit code, or with the exception; `spins` is the fuel of `settle_fds`.
pub data Ending : Type 0 where
  exits : ℕ → Ending
  propagates : Ending
  spins : Ending

unfoldable pub exit_code : Exit → Ending
exit_code (passed baseline final) = exits 0
exit_code (fd_leak baseline final) = exits 1
exit_code no_fd_field = exits 2
exit_code no_final_sample = exits 2
exit_code watchdog = exits 3
exit_code never_connected = exits 4
exit_code type_error = exits 2
exit_code exhausted = spins

-- What may cut `asyncio.run(run(enabled))` short at any point: SystemExit or KeyboardInterrupt, or any
-- other BaseException.
pub data Cut : Type 0 where
  interrupted : Cut
  faulted : Cut

-- The `try` of `main` around the run, which has the outcome `x` if nothing cuts it short.
unfoldable pub ending : Option Cut → Exit → Ending
ending none x = exit_code x
ending (some interrupted) x = propagates
ending (some faulted) x = exits 2

-- `main()`, on the value of VORTEX_CHAOS.
unfoldable pub main_choice : Choice → Option Cut → ℕ → Load → Env → World → Ending
main_choice (exit_two name) cut drain load env w = exits 2
main_choice (chosen []) cut drain load env w = exits 0
main_choice (chosen (style ∷ styles)) cut drain load env w = ending cut (run drain load env w)

unfoldable pub main : Bytes → Option Cut → ℕ → Load → Env → World → Ending
main raw cut drain load env w = main_choice (parse_behaviors raw) cut drain load env w
