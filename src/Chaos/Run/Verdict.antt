-- ===== src/Chaos/Run/Verdict.antt =====
-- What each outcome of `run` says about the server.
use nim_vortex.Prelude.{
  ℕ, suc, ◌+◌, ◌≤◌, ◌<◌, ◌≡◌, inl, inr, refl, Bool, true, false, Option, none, some, ltb, ◌==◌,
  if◌then◌else◌, arith, ltb→lt, Bool-cases, ◌∙◌,
}
use nim_vortex.Chaos.Fds.{
  settle_ms, settle_fds, sample_fds, Attempt, unopened, unreadable, stats, Env, World, sleep,
  returned, or_none, Sample, never, missing_fd, fds, strict, sample_fds_strict, slack, Settled,
  settled, spent,
}
use nim_vortex.Chaos.Fds.Settle.{
  Opens, settle_fds-Opens, sample_fds-connects, Samples, sample_loop-Samples, LastSample,
  sample_fds_lem, Settles, settle_fds-Settles,
}
use nim_vortex.Chaos.Run.{
  Load, Exit, passed, fd_leak, no_fd_field, no_final_sample, watchdog, never_connected, type_error,
  exhausted, compare_fds, verdict, no_baseline, judge, after_drain, work, warm_loop, induce,
  after_baseline, run,
}

-- Some attempt of the run had this outcome.
abbrev pub Answers : Env → Option ℕ → Type 0
Answers env count = (k : ℕ) × (env.answer k ≡ stats count)

-- An attempt read the first count, and a later one the second.
abbrev pub Compares : Env → ℕ → ℕ → Type 0
Compares env baseline n =
    (j : ℕ) × (k : ℕ) × (j < k)
    × (env.answer j ≡ stats (some baseline))
    × (env.answer k ≡ stats (some n))

-- Some attempt of the run read no count.
abbrev pub Fails : Env → Type 0
Fails env = (k : ℕ) × (or_none (returned (env.answer k)) ≡ none)

-- What an outcome of `run` says of the server's answers.
abbrev pub Judges : Load → Env → Exit → Type 0
Judges load env (passed baseline n) = Compares env baseline n × (n ≤ baseline + slack)
Judges load env (fd_leak baseline n) = Compares env baseline n × (baseline + slack < n)
Judges load env no_fd_field = Answers env none
Judges load env no_final_sample = Fails env
Judges load env watchdog = load.wedged ≡ true
Judges load env never_connected = load.worked ≡ 0
Judges load env type_error =
    ((m : ℕ) × ((i : ℕ) → i < 10 → returned (env.answer (m + i)) ≡ none))
    × ((n : ℕ) × Answers env (some n))
Judges load env exhausted = ⊥

or_none_iff : (a : Attempt) (n : ℕ) → or_none (returned a) ≡ some n → a ≡ stats (some n)
unfolding or_none returned
or_none_iff unopened n h = ground arith
or_none_iff unreadable n h = ground arith
or_none_iff (stats none) n h = ground arith
or_none_iff (stats (some m)) n h = ground arith

compare_fds_lem :
    (load : Load) (env : Env) (baseline n : ℕ)
    → Compares env baseline n
    → Judges load env (compare_fds baseline n)
unfolding compare_fds
compare_fds_lem load env baseline n f = elim (Bool-cases (ltb (baseline + slack) n)) [
  | inl e ↦ rw e (f, ltb→lt _ _ e)
  | inr e ↦ rw e (f, ground arith)
]

if-Judges :
    (load : Load) (env : Env) (connects : ℕ) (x : Exit)
    → load.worked ≤ connects
    → Judges load env x
    → Judges load env (if connects == 0 then never_connected else x)
if-Judges load env connects x o h = elim (Bool-cases (connects == 0)) [
  | inl e ↦ rw e (ground arith)
  | inr e ↦ rw e h
]

verdict-Judges :
    (load : Load) (env : Env) (baseline j start : ℕ) (final : Option ℕ) (w : World)
    → start ≡ suc j
    → load.worked ≤ w.connects
    → env.answer j ≡ stats (some baseline)
    → LastSample env start final w
    → Judges load env (verdict baseline final w)
unfolding verdict
verdict-Judges load env baseline j start none w after o b (k, l, a, e) =
    if-Judges load env w.connects no_final_sample o (k, e)
verdict-Judges load env baseline j start (some n) w after o b (k, l, a, e) =
    if-Judges load env w.connects (compare_fds baseline n) o
      (compare_fds_lem load env baseline n (j, k, omega arith, b, or_none_iff (env.answer k) n e))

judge-Judges :
    (load : Load) (env : Env) (baseline give_up j start : ℕ) (s : Settled)
    → start ≡ suc j
    → Opens load.worked s
    → env.answer j ≡ stats (some baseline)
    → Settles env start baseline give_up s
    → Judges load env (judge baseline s)
unfolding judge
judge-Judges load env baseline give_up j start (settled final w) after o b (l, m) =
    verdict-Judges load env baseline j start final w after o b l
judge-Judges load env baseline give_up j start spent after o b h = h

no_baseline-Judges :
    (load : Load) (env : Env) (start : ℕ) (final : Option ℕ) (w : World)
    → load.worked ≤ w.connects
    → ((m : ℕ) × ((i : ℕ) → i < 10 → returned (env.answer (m + i)) ≡ none))
    → LastSample env start final w
    → Judges load env (no_baseline final w)
unfolding no_baseline
no_baseline-Judges load env start none w o b (k, l, a, e) =
    if-Judges load env w.connects no_final_sample o (k, e)
no_baseline-Judges load env start (some n) w o b (k, l, a, e) =
    (b, (n, (k, or_none_iff (env.answer k) n e)))

-- What the baseline sample says, when `attempts` were made by then.
abbrev Baseline : Env → ℕ → Sample → Type 0
Baseline env attempts never = (m : ℕ) × ((i : ℕ) → i < 10 → returned (env.answer (m + i)) ≡ none)
Baseline env attempts missing_fd = Answers env none
Baseline env attempts (fds n) = (j : ℕ) × (attempts ≡ suc j) × (env.answer j ≡ stats (some n))

Baseline-Samples :
    (env : Env) (w w' : World) (r : Option (Option ℕ))
    → Samples 10 env w r w'
    → Baseline env w'.attempts (strict r)
unfolding strict
Baseline-Samples env w w' none (a, h) = (w.attempts, h)
Baseline-Samples env w w' (some none) (n, a, l, u, e, c) = (n, e)
Baseline-Samples env w w' (some (some x)) (n, a, l, u, e, c) = (n, a, e)

watchdog-Judges :
    (load : Load) (env : Env) (b : Bool) (x : Exit)
    → (b ≡ true → load.wedged ≡ true)
    → Judges load env x
    → Judges load env (if b then watchdog else x)
watchdog-Judges load env true x e h = e refl
watchdog-Judges load env false x e h = h

induce-Judges :
    (drain : ℕ) (load : Load) (env : Env) (baseline : Option ℕ) (w : World)
    → ((v : World)
        → v.attempts ≡ w.attempts
        → load.worked ≤ v.connects
        → Judges load env (after_drain baseline env v))
    → Judges load env (induce drain load env baseline w)
unfolding induce sleep work
induce-Judges drain load env baseline w h =
    watchdog-Judges load env load.wedged _ (λ e. e)
      (h (sleep drain (work load w)) refl (omega arith))

after_baseline-Judges :
    (drain : ℕ) (load : Load) (env : Env) (baseline : Sample) (w : World)
    → Baseline env w.attempts baseline
    → Judges load env (after_baseline drain load env baseline w)
unfolding after_baseline after_drain
after_baseline-Judges drain load env never w b = induce-Judges drain load env none w (λ v same o.
    no_baseline-Judges load env v.attempts (sample_fds 5 1000 env v).0 (sample_fds 5 1000 env v).1
      (omega (arith, sample_fds-connects 5 1000 env v)) b (sample_fds_lem 4 1000 env v))
after_baseline-Judges drain load env missing_fd w b = b
after_baseline-Judges drain load env (fds n) w (j, a, b) =
    induce-Judges drain load env (some n) w (λ v same o.
      judge-Judges load env n (v.clock + settle_ms) j v.attempts (settle_fds n env v) (same ∙ a)
        (settle_fds-Opens load.worked n env v o) b (settle_fds-Settles n env v).0)

-- Whatever the server answers and however long it takes, `run` ends, and its outcome is the server's own
-- doing: it passes only on two counts that `/stats` reported, the later one at most SLACK above the
-- earlier, and reports a leak only on two counts of which the later is higher than that. It gives up for
-- a missing field only where an answer had none and for a missing final sample only where an attempt
-- read no count, and trips the watchdog only when a worker was wedged. It says that the server was never
-- connected to only when the workers opened no session. The TypeError occurs only when ten
-- attempts in a row raised and some attempt read a count.
pub run-Judges :
    (drain : ℕ) (load : Load) (env : Env) (w : World) → Judges load env (run drain load env w)
unfolding run sample_fds_strict
run-Judges drain load env w =
    let v = warm_loop 10 0 load w in
    after_baseline-Judges drain load env _ _
      (Baseline-Samples env v _ _ (sample_loop-Samples 10 1000 env v))
