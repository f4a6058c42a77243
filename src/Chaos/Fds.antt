-- ===== src/Chaos/Fds.antt =====
-- The samples of the server's open descriptors in conformance/stress/client/chaos.py. What the
-- server answers and how long each step takes is the argument `env`; times are milliseconds.
pub mod Waits
pub mod Settle
use nim_vortex.Prelude.{
  ℕ, zero, suc, ◌+◌, ◌-◌, ◌*◌, ◌/◌, ◌%◌, ◌^◌, ◌≤◌, ◌<◌, min, max, ◌≡◌, ◌≢◌, ◌⊎◌, inl, inr, ◌↔◌,
  refl, sym, ap, ◌∙◌, Bool, true, false, not, ◌&&◌, ◌||◌, Option, none, some, List, [], ◌∷◌, ◌++◌,
  map, append-nil, append_assoc, length, get_elem?, get_or, take, drop, replicate, ltb, leb, ◌==◌,
  if◌then◌else◌, arith, ltb→lt, lt→ltb, leb→le, ==_iff, Bool-cases, Option-cases, length-append,
  length-take, length-drop, take-append-drop, take-append, drop-append, drop-nil, drop-drop,
  get_or-drop, get_or-append_left, drop-append_left, take-append_left, slice-append_left, drop_all,
}

-- One attempt of a sample: the session did not open, `get_server_stats` raised, or it returned a
-- triple with this third component.
pub data Attempt : Type 0 where
  unopened : Attempt
  unreadable : Attempt
  stats : Option ℕ → Attempt

-- What the sidecar meets: the outcome and the duration of its n-th attempt to sample.
pub record Env : Type 0 where
  pub answer : ℕ → Attempt
  pub takes : ℕ → ℕ

-- `time.monotonic()`, `connects[0]`, and how many attempts were made.
pub record World : Type 0 where
  pub clock : ℕ
  pub connects : ℕ
  pub attempts : ℕ

unfoldable pub sleep : ℕ → World → World
sleep ms w = record w { clock = w.clock + ms }

-- `connects[0] += 1`, which stands behind the opening of the session.
unfoldable pub opened : Attempt → ℕ
opened unopened = 0
opened unreadable = 1
opened (stats fds) = 1

unfoldable pub attempt : Env → World → World
attempt env w = record {
  clock = w.clock + env.takes w.attempts;
  connects = w.connects + opened (env.answer w.attempts);
  attempts = suc w.attempts;
}

-- `if attempt + 1 < retries and gap > 0: await asyncio.sleep(gap)`, where `left` attempts follow.
unfoldable pub gap_sleep : ℕ → ℕ → World → World
gap_sleep zero gap w = w
gap_sleep (suc left) gap w = sleep gap w

-- The triple that an attempt returned, if it did not raise.
unfoldable pub returned : Attempt → Option (Option ℕ)
returned unopened = none
returned unreadable = none
returned (stats fds) = some fds

-- The loop that `sample_fds` and `sample_fds_strict` share: the third component of the first triple
-- that an attempt returns, or nothing when every attempt raised.
unfoldable pub sample_loop : ℕ → ℕ → Env → World → Option (Option ℕ) × World
sample_loop zero gap env w = (none, w)
sample_loop (suc left) gap env w = elim (returned (env.answer w.attempts)) [
  | some fds ↦ (some fds, attempt env w)
  | none ↦ sample_loop left gap env (gap_sleep left gap (attempt env w))
]

unfoldable pub or_none : Option (Option ℕ) → Option ℕ
or_none none = none
or_none (some fds) = fds

-- `sample_fds(retries, gap)`
unfoldable pub sample_fds : ℕ → ℕ → Env → World → Option ℕ × World
sample_fds retries gap env w =
    let (sample, w') = sample_loop retries gap env w in (or_none sample, w')

-- What `sample_fds_strict` returns: None, `_MISSING_FD`, or a count.
pub data Sample : Type 0 where
  never : Sample
  missing_fd : Sample
  fds : ℕ → Sample

unfoldable pub strict : Option (Option ℕ) → Sample
strict none = never
strict (some none) = missing_fd
strict (some (some n)) = fds n

unfoldable pub sample_fds_strict : ℕ → ℕ → Env → World → Sample × World
sample_fds_strict retries gap env w =
    let (sample, w') = sample_loop retries gap env w in (strict sample, w')

-- SLACK and SETTLE
abbrev pub slack : ℕ
slack = 8

abbrev pub settle_ms : ℕ
settle_ms = 60000

-- `settle_fds` returned a sample, or ran out of fuel.
pub data Settled : Type 0 where
  settled : Option ℕ → World → Settled
  spent : Settled

-- The loop: sample again while the count is too high and the budget lasts.
unfoldable pub settle_loop : ℕ → ℕ → ℕ → Env → Option ℕ → World → Settled
settle_loop zero baseline give_up env final w = spent
settle_loop (suc fuel) baseline give_up env none w = settled none w
settle_loop (suc fuel) baseline give_up env (some n) w =
    elim (ltb (baseline + slack) n && ltb w.clock give_up) [
      | true ↦
          let (final, w') = sample_fds 5 1000 env (sleep 1000 w) in
          settle_loop fuel baseline give_up env final w'
      | false ↦ settled (some n) w
    ]

-- `settle_fds(baseline)`: every round sleeps for a second, so 61 rounds outlast the budget.
unfoldable pub settle_fds : ℕ → Env → World → Settled
settle_fds baseline env w =
    let (final, w') = sample_fds 5 1000 env w in
    settle_loop 61 baseline (w.clock + settle_ms) env final w'
