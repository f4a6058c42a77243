-- ===== src/Chaos/Fds/Waits.antt =====
-- `settle_fds`, round by round: when it samples again and when it stops.
use nim_vortex.Prelude.{
  ℕ, zero, suc, ◌+◌, ◌≤◌, ◌<◌, ◌≡◌, ◌⊎◌, inl, inr, refl, true, false, ◌&&◌, Option, none, some, ltb,
  arith, Bool-cases,
}
use nim_vortex.Chaos.Fds.{
  Env, World, sleep, sample_fds, slack, settle_ms, Settled, settled, spent, settle_loop, settle_fds,
}

-- Why a sample was the last: it passes, nothing was read, or the clock has reached the end.
abbrev pub MayStop : ℕ → ℕ → Option ℕ → World → Type 0
MayStop baseline give_up none w = Unit
MayStop baseline give_up (some n) w = (n ≤ baseline + slack) ⊎ (give_up ≤ w.clock)

-- From one sample to the last, where another second is waited only for a count that does not pass, and only
-- before the time is up.
pub data Waits (env : Env) (baseline give_up : ℕ)
    : Option ℕ → World → Option ℕ → World → Type 0 where
  stops :
      (final : Option ℕ) (w : World)
      → MayStop baseline give_up final w
      → Waits env baseline give_up final w final w
  waits :
      (n : ℕ) (w : World) (final : Option ℕ) (w' : World)
      → baseline + slack < n
      → w.clock < give_up
      → Waits env baseline give_up
          (sample_fds 5 1000 env (sleep 1000 w)).0
          (sample_fds 5 1000 env (sleep 1000 w)).1
          final
          w'
      → Waits env baseline give_up (some n) w final w'

abbrev pub WaitsFor : Env → ℕ → ℕ → Option ℕ → World → Settled → Type 0
WaitsFor env baseline give_up first w (settled final w') =
    Waits env baseline give_up first w final w'
WaitsFor env baseline give_up first w spent = Unit

pub settle_loop-stop :
    (fuel baseline give_up : ℕ) (env : Env) (n : ℕ) (w : World)
    → (ltb (baseline + slack) n && ltb w.clock give_up) ≡ false
    → settle_loop (suc fuel) baseline give_up env (some n) w ≡ settled (some n) w
unfolding settle_loop
settle_loop-stop fuel baseline give_up env n w e = rw (e, settle_loop) refl

pub settle_loop-again :
    (fuel baseline give_up : ℕ) (env : Env) (n : ℕ) (w : World)
    → (ltb (baseline + slack) n && ltb w.clock give_up) ≡ true
    → settle_loop (suc fuel) baseline give_up env (some n) w
      ≡ settle_loop fuel baseline give_up env
          (sample_fds 5 1000 env (sleep 1000 w)).0
          (sample_fds 5 1000 env (sleep 1000 w)).1
unfolding settle_loop
settle_loop-again fuel baseline give_up env n w e = rw (e, settle_loop) refl

wait-once :
    (baseline give_up : ℕ) (env : Env) (n : ℕ) (w : World) (s : Settled)
    → (ltb (baseline + slack) n && ltb w.clock give_up) ≡ true
    → WaitsFor env baseline give_up
        (sample_fds 5 1000 env (sleep 1000 w)).0
        (sample_fds 5 1000 env (sleep 1000 w)).1
        s
    → WaitsFor env baseline give_up (some n) w s
wait-once baseline give_up env n w (settled final w') e h =
    waits n w final w' (ground arith) (ground arith) h
wait-once baseline give_up env n w spent e h = tt

pub settle_loop-Waits :
    (fuel baseline give_up : ℕ) (env : Env) (final : Option ℕ) (w : World)
    → WaitsFor env baseline give_up final w (settle_loop fuel baseline give_up env final w)
settle_loop-Waits zero baseline give_up env final w = unfold settle_loop in tt
settle_loop-Waits (suc fuel) baseline give_up env none w = unfold settle_loop in stops none w tt
settle_loop-Waits (suc fuel) baseline give_up env (some n) w =
    elim (Bool-cases (ltb (baseline + slack) n && ltb w.clock give_up)) [
      | inl e ↦
          let v = sleep 1000 w in
          rw (settle_loop-again fuel baseline give_up env n w e) (
            wait-once baseline give_up env n w _ e (
              settle_loop-Waits fuel baseline give_up env (sample_fds 5 1000 env v).0
                (sample_fds 5 1000 env v).1))
      | inr e ↦
          rw (settle_loop-stop fuel baseline give_up env n w e) (stops (some n) w (ground arith))
    ]

pub settle_fds-Waits :
    (baseline : ℕ) (env : Env) (w : World)
    → WaitsFor env baseline
        (w.clock + settle_ms)
        (sample_fds 5 1000 env w).0
        (sample_fds 5 1000 env w).1
        (settle_fds baseline env w)
unfolding settle_fds
settle_fds-Waits baseline env w =
    settle_loop-Waits 61 baseline (w.clock + settle_ms) env (sample_fds 5 1000 env w).0
      (sample_fds 5 1000 env w).1
