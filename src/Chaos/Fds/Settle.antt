-- ===== src/Chaos/Fds/Settle.antt =====
-- `sample_fds` and `settle_fds`: which answer of the server they report, and that they end.
use nim_vortex.Prelude.{
  ℕ, zero, suc, ◌+◌, ◌*◌, ◌≤◌, ◌<◌, ◌≡◌, inl, inr, refl, ap, ◌∙◌, ◌&&◌, Option, none, some, ltb,
  arith, Bool-cases, Option-cases,
}
use nim_vortex.Chaos.Fds.{
  Attempt, unopened, unreadable, stats, Env, World, sleep, opened, attempt, gap_sleep, returned,
  sample_loop, or_none, sample_fds, slack, settle_ms, Settled, settled, spent, settle_loop,
  settle_fds,
}
use nim_vortex.Chaos.Fds.Waits.{
  MayStop, WaitsFor, settle_loop-stop, settle_loop-again, settle_fds-Waits,
}

-- A sample that began in `w` and ended in `w'`.
abbrev pub Samples : ℕ → Env → World → Option (Option ℕ) → World → Type 0
Samples left env w none w' =
    (w'.attempts ≡ w.attempts + left)
    × ((i : ℕ) → i < left → returned (env.answer (w.attempts + i)) ≡ none)
Samples left env w (some fds) w' =
    (n : ℕ) × (w'.attempts ≡ suc n)
    × (w.attempts ≤ n)
    × (n < w.attempts + left)
    × (env.answer n ≡ stats fds)
    × (w.connects < w'.connects)

returned_iff : (a : Attempt) (fds : Option ℕ) → returned a ≡ some fds → a ≡ stats fds
unfolding returned
returned_iff unopened fds h = ground arith
returned_iff unreadable fds h = ground arith
returned_iff (stats x) fds h = ground arith

gap_sleep_lem :
    (left gap : ℕ) (w : World)
    → ((gap_sleep left gap w).attempts ≡ w.attempts)
      × ((gap_sleep left gap w).connects ≡ w.connects)
      × (w.clock ≤ (gap_sleep left gap w).clock)
unfolding gap_sleep sleep
gap_sleep_lem zero gap w = (refl, refl, omega arith)
gap_sleep_lem (suc left) gap w = (refl, refl, omega arith)

sample_loop-again :
    (left gap : ℕ) (env : Env) (w : World)
    → returned (env.answer w.attempts) ≡ none
    → sample_loop (suc left) gap env w
      ≡ sample_loop left gap env (gap_sleep left gap (attempt env w))
unfolding sample_loop
sample_loop-again left gap env w e = rw (e, sample_loop) refl

sample_loop-found :
    (left gap : ℕ) (env : Env) (w : World) (fds : Option ℕ)
    → returned (env.answer w.attempts) ≡ some fds
    → sample_loop (suc left) gap env w ≡ (some fds, attempt env w)
unfolding sample_loop
sample_loop-found left gap env w fds e = rw (e, sample_loop) refl

attempt_lem :
    (env : Env) (w : World)
    → ((attempt env w).attempts ≡ suc w.attempts)
      × (w.connects ≤ (attempt env w).connects)
      × (w.clock ≤ (attempt env w).clock)
unfolding attempt
attempt_lem env w = (refl, omega arith, omega arith)

attempt-opens :
    (env : Env) (w : World) (fds : Option ℕ)
    → env.answer w.attempts ≡ stats fds
    → w.connects < (attempt env w).connects
unfolding attempt opened
attempt-opens env w fds e = rw e (omega arith)

pub sample_loop-clock :
    (left gap : ℕ) (env : Env) (w : World) → w.clock ≤ (sample_loop left gap env w).1.clock
sample_loop-clock zero gap env w = unfold sample_loop in omega arith
sample_loop-clock (suc left) gap env w = elim (Option-cases (returned (env.answer w.attempts))) [
  | inl e ↦
      let v = attempt env w in
      let (a, c, m) = gap_sleep_lem left gap v in
      let (a', c', m') = attempt_lem env w in
      rw (sample_loop-again left gap env w e)
        (omega (arith, sample_loop-clock left gap env (gap_sleep left gap v)))
  | inr (fds, e) ↦
      let (a', c', m') = attempt_lem env w in rw (sample_loop-found left gap env w fds e) m'
]

pub sample_loop-connects :
    (left gap : ℕ) (env : Env) (w : World) → w.connects ≤ (sample_loop left gap env w).1.connects
sample_loop-connects zero gap env w = unfold sample_loop in omega arith
sample_loop-connects (suc left) gap env w = elim (Option-cases (returned (env.answer w.attempts))) [
  | inl e ↦
      let v = attempt env w in
      let (a, c, m) = gap_sleep_lem left gap v in
      let (a', c', m') = attempt_lem env w in
      rw (sample_loop-again left gap env w e)
        (omega (arith, sample_loop-connects left gap env (gap_sleep left gap v)))
  | inr (fds, e) ↦
      let (a', c', m') = attempt_lem env w in rw (sample_loop-found left gap env w fds e) c'
]

none-shift :
    (left : ℕ) (env : Env) (n m : ℕ)
    → m ≡ suc n
    → returned (env.answer n) ≡ none
    → ((i : ℕ) → i < left → returned (env.answer (m + i)) ≡ none)
    → (i : ℕ) → i < suc left
    → returned (env.answer (n + i)) ≡ none
none-shift left env n m e r h zero below = ap (λ (k : ℕ). returned (env.answer k)) (omega arith) ∙ r
none-shift left env n m e r h (suc i) below =
    ap (λ (k : ℕ). returned (env.answer k)) (omega arith) ∙ h i (omega arith)

Samples-later :
    (left : ℕ) (env : Env) (w v w' : World) (r : Option (Option ℕ))
    → v.attempts ≡ suc w.attempts
    → w.connects ≤ v.connects
    → returned (env.answer w.attempts) ≡ none
    → Samples left env v r w'
    → Samples (suc left) env w r w'
Samples-later left env w v w' none a c e (n, h) =
    (omega arith, none-shift left env w.attempts v.attempts a e h)
Samples-later left env w v w' (some fds) a c e (n, b, l, u, s, o) =
    (n, b, omega arith, omega arith, s, omega arith)

-- The last sample before `w`, as `sample_fds` would return it.
abbrev pub LastSample : Env → ℕ → Option ℕ → World → Type 0
LastSample env start final w =
    (n : ℕ) × (start ≤ n) × (w.attempts ≡ suc n) × (or_none (returned (env.answer n)) ≡ final)

LastSample-Samples :
    (left : ℕ) (env : Env) (w : World) (r : Option (Option ℕ)) (w' : World)
    → Samples (suc left) env w r w'
    → LastSample env w.attempts (or_none r) w'
unfolding or_none returned
LastSample-Samples left env w none w' (a, h) =
    (w.attempts + left, omega arith, omega arith, rw (h left (omega arith)) refl)
LastSample-Samples left env w (some fds) w' (n, a, l, u, e, c) = (n, l, a, rw e refl)

LastSample-earlier :
    (env : Env) (start later : ℕ) (final : Option ℕ) (w : World)
    → start ≤ later
    → LastSample env later final w
    → LastSample env start final w
LastSample-earlier env start later final w h (n, l, a, e) = (n, omega arith, a, e)

-- What a sample reports: the triple of the first attempt that returned one, among as many attempts as
-- it may make, and then a session was opened; or nothing, when each of these attempts raised.
pub sample_loop-Samples :
    (left gap : ℕ) (env : Env) (w : World)
    → Samples left env w (sample_loop left gap env w).0 (sample_loop left gap env w).1
sample_loop-Samples zero gap env w =
    unfold sample_loop in (omega arith, (λ i h. absurd (omega arith)))
sample_loop-Samples (suc left) gap env w = elim (Option-cases (returned (env.answer w.attempts))) [
  | inl e ↦
      let v = gap_sleep left gap (attempt env w) in
      let (a, c, m) = gap_sleep_lem left gap (attempt env w) in
      let (a', c', m') = attempt_lem env w in
      rw (sample_loop-again left gap env w e) (
        Samples-later left env w v _ _ (a ∙ a') (omega arith) e
          (sample_loop-Samples left gap env v))
  | inr (fds, e) ↦
      let read = returned_iff (env.answer w.attempts) fds e in
      let (a', c', m') = attempt_lem env w in
      rw (sample_loop-found left gap env w fds e)
        (w.attempts, a', omega arith, omega arith, read, attempt-opens env w fds read)
]

pub sample_fds_lem :
    (left gap : ℕ) (env : Env) (w : World)
    → LastSample env w.attempts
        (sample_fds (suc left) gap env w).0
        (sample_fds (suc left) gap env w).1
unfolding sample_fds
sample_fds_lem left gap env w =
    LastSample-Samples left env w _ _ (sample_loop-Samples (suc left) gap env w)

-- A result of `settle_fds`, for the attempts that were made before it and the time at which it gives up.
abbrev pub Settles : Env → ℕ → ℕ → ℕ → Settled → Type 0
Settles env start baseline give_up (settled final w) =
    LastSample env start final w × MayStop baseline give_up final w
Settles env start baseline give_up spent = ⊥

sample_fds-clock :
    (left gap : ℕ) (env : Env) (w : World) → w.clock ≤ (sample_fds left gap env w).1.clock
unfolding sample_fds
sample_fds-clock left gap env w = sample_loop-clock left gap env w

pub sample_fds-connects :
    (left gap : ℕ) (env : Env) (w : World) → w.connects ≤ (sample_fds left gap env w).1.connects
unfolding sample_fds
sample_fds-connects left gap env w = sample_loop-connects left gap env w

-- At least so many sessions were opened by the end.
abbrev pub Opens : ℕ → Settled → Type 0
Opens least (settled final w) = least ≤ w.connects
Opens least spent = Unit

sleep-clock : (ms : ℕ) (w : World) → (sleep ms w).clock ≡ w.clock + ms
unfolding sleep
sleep-clock ms w = refl

sleep-attempts : (ms : ℕ) (w : World) → (sleep ms w).attempts ≡ w.attempts
unfolding sleep
sleep-attempts ms w = refl

settle_loop-Settles :
    (fuel start baseline give_up : ℕ) (env : Env) (final : Option ℕ) (w : World)
    → give_up ≤ w.clock + 1000 * fuel
    → LastSample env start final w
    → Settles env start baseline give_up (settle_loop (suc fuel) baseline give_up env final w)
settle_loop-Settles fuel start baseline give_up env none w enough last =
    unfold settle_loop in (last, tt)
settle_loop-Settles zero start baseline give_up env (some n) w enough last =
    rw (settle_loop-stop zero baseline give_up env n w (ground arith)) (last, ground arith)
settle_loop-Settles (suc fuel) start baseline give_up env (some n) w enough last =
    elim (Bool-cases (ltb (baseline + slack) n && ltb w.clock give_up)) [
      | inl e ↦
          let v = sleep 1000 w in
          let later = sample_fds-clock 5 1000 env v in
          rw (settle_loop-again (suc fuel) baseline give_up env n w e) (
            settle_loop-Settles fuel start baseline give_up env (sample_fds 5 1000 env v).0
              (sample_fds 5 1000 env v).1 (omega (arith, later, sleep-clock 1000 w))
              (LastSample-earlier env start v.attempts (sample_fds 5 1000 env v).0
                (sample_fds 5 1000 env v).1 (omega (arith, last.1, last.2, sleep-attempts 1000 w))
                (sample_fds_lem 4 1000 env v)))
      | inr e ↦ rw (settle_loop-stop (suc fuel) baseline give_up env n w e) (last, ground arith)
    ]

settle_fds-stops :
    (baseline : ℕ) (env : Env) (w : World)
    → Settles env w.attempts baseline (w.clock + settle_ms) (settle_fds baseline env w)
unfolding settle_fds
settle_fds-stops baseline env w =
    settle_loop-Settles 60 w.attempts baseline (w.clock + settle_ms) env (sample_fds 5 1000 env w).0
      (sample_fds 5 1000 env w).1 (omega (arith, sample_fds-clock 5 1000 env w))
      (sample_fds_lem 4 1000 env w)

-- `settle_fds` always ends. What it returns is the server's last answer, and unless that holds no count
-- it stopped because the count passes or because the 60 seconds are over, so that a count that does not
-- pass is never accepted early. Every second that it waited before, it waited after a sample whose count
-- does not pass, taken before the 60 seconds were over: a count that passes is never waited away.
pub settle_fds-Settles :
    (baseline : ℕ) (env : Env) (w : World)
    → Settles env w.attempts baseline (w.clock + settle_ms) (settle_fds baseline env w)
      × WaitsFor env baseline
          (w.clock + settle_ms)
          (sample_fds 5 1000 env w).0
          (sample_fds 5 1000 env w).1
          (settle_fds baseline env w)
settle_fds-Settles baseline env w =
    (settle_fds-stops baseline env w, settle_fds-Waits baseline env w)

sleep-connects : (ms : ℕ) (w : World) → (sleep ms w).connects ≡ w.connects
unfolding sleep
sleep-connects ms w = refl

settle_loop-Opens :
    (fuel least baseline give_up : ℕ) (env : Env) (final : Option ℕ) (w : World)
    → least ≤ w.connects
    → Opens least (settle_loop fuel baseline give_up env final w)
settle_loop-Opens zero least baseline give_up env final w h = unfold settle_loop in tt
settle_loop-Opens (suc fuel) least baseline give_up env none w h = unfold settle_loop in h
settle_loop-Opens (suc fuel) least baseline give_up env (some n) w h =
    elim (Bool-cases (ltb (baseline + slack) n && ltb w.clock give_up)) [
      | inl e ↦
          let v = sleep 1000 w in
          rw (settle_loop-again fuel baseline give_up env n w e) (
            settle_loop-Opens fuel least baseline give_up env (sample_fds 5 1000 env v).0
              (sample_fds 5 1000 env v).1
              (omega (arith, sample_fds-connects 5 1000 env v, sleep-connects 1000 w)))
      | inr e ↦ rw (settle_loop-stop fuel baseline give_up env n w e) h
    ]

pub settle_fds-Opens :
    (least baseline : ℕ) (env : Env) (w : World)
    → least ≤ w.connects
    → Opens least (settle_fds baseline env w)
unfolding settle_fds
settle_fds-Opens least baseline env w h =
    settle_loop-Opens 61 least baseline (w.clock + settle_ms) env (sample_fds 5 1000 env w).0
      (sample_fds 5 1000 env w).1 (omega (arith, sample_fds-connects 5 1000 env w))
