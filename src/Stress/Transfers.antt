-- ===== src/Stress/Transfers.antt =====
-- One transfer of the upload workload: what it counts and what it raises.
use nim_vortex.Prelude.{
  ℕ, ◌+◌, ◌≤◌, ◌≡◌, ◌≢◌, ◌⊎◌, inl, inr, refl, ap, ◌∙◌, Bool, true, false, ◌&&◌, Option, none, some,
  ltb, max, ◌==◌, if◌then◌else◌, arith, Bool-cases,
}
use nim_vortex.Prelude.Bytes.{Bytes, equal, equal_refl}
use nim_vortex.Prelude.Dict.{Dict}
use nim_vortex.Stress.{
  Counters, count, bump, add_xfer, Fault, fail, Upload, answered, timed_out, raised, Transfer,
  Course, Config, abandon, complete, transfer, leave, enter, in_session, outer, start, attempt,
  once, add_status, ok_ops,
}
use nim_vortex.Stress.Tallies.{count-add}

-- How often the workload of `cfg` was abandoned.
abbrev pub given_up : Config → Counters → ℕ
given_up cfg c = count cfg.tag c.abandoned

pub given_up-abandon :
    (cfg : Config) (c : Counters) → given_up cfg (abandon cfg c) ≡ given_up cfg c + 1
unfolding abandon
given_up-abandon cfg c = rw (count-add cfg.tag cfg.tag 1 c.abandoned, equal_refl cfg.tag) refl

-- A transfer counts itself as abandoned at most once, and `counted` tells when the inner handler has.
abbrev Tallied : Config → Counters → Course → Type 0
Tallied cfg c s =
    ((s.counted ≡ true) × (given_up cfg s.counters ≡ given_up cfg c + 1))
    ⊎ ((s.counted ≡ false) × (given_up cfg s.counters ≡ given_up cfg c))

complete-abandoned :
    (cfg : Config) (took : ℕ) (s : Course)
    → ((complete cfg took s).counters.abandoned ≡ s.counters.abandoned)
      × ((complete cfg took s).counted ≡ s.counted)
unfolding complete bump add_xfer
complete-abandoned cfg took s = ground arith

if-Tallied :
    (cfg : Config) (c : Counters) (b : Bool) (s t : Course)
    → Tallied cfg c s
    → Tallied cfg c t
    → Tallied cfg c (if b then s else t)
if-Tallied cfg c true s t h k = h
if-Tallied cfg c false s t h k = k

transfer-Tallied :
    (cfg : Config) (u : Upload) (took : ℕ) (s : Course)
    → s.counted ≡ false
    → Tallied cfg s.counters (transfer cfg u took s)
unfolding transfer
transfer-Tallied cfg timed_out took s h = inl (refl, given_up-abandon cfg s.counters)
transfer-Tallied cfg (raised f) took s h = inr (h, refl)
transfer-Tallied cfg (answered st) took s h =
    let (same, none_yet) = complete-abandoned cfg took s in
    if-Tallied cfg s.counters (st == 400) _ _ (inr (h, refl)) (
      if-Tallied cfg s.counters (st == 200) (complete cfg took s) _
        (inr (none_yet ∙ h, ap (count cfg.tag) same)) (inr (h, refl)))

enter-Tallied :
    (cfg : Config) (c : Counters) (o : Option Fault) (s inside : Course)
    → Tallied cfg c s
    → Tallied cfg c inside
    → Tallied cfg c (enter o s inside)
unfolding enter
enter-Tallied cfg c none s inside h k = k
enter-Tallied cfg c (some f) s inside h k = h

leave-Tallied :
    (cfg : Config) (c : Counters) (o : Option Fault) (s : Course)
    → Tallied cfg c s
    → Tallied cfg c (leave o s)
unfolding leave
leave-Tallied cfg c none s h = h
leave-Tallied cfg c (some f) s h = h

in_session-Tallied :
    (cfg : Config) (t : Transfer) (s : Course)
    → s.counted ≡ false
    → Tallied cfg s.counters (in_session cfg t s)
unfolding in_session
in_session-Tallied cfg t s h =
    enter-Tallied cfg s.counters t.opening s _ (inr (h, refl))
      (leave-Tallied cfg s.counters t.leaving _ (transfer-Tallied cfg t.upload t.took s h))

-- What the outer handler leaves.
outer-Tallied :
    (cfg : Config) (late : Bool) (f : Option Fault) (c : Counters) (s : Course)
    → Tallied cfg c s
    → given_up cfg (outer cfg late f s).counters ≤ given_up cfg c + 1
unfolding outer
outer-Tallied cfg late none c s h = ground arith
outer-Tallied cfg late (some f) c s h = ground (arith, given_up-abandon cfg s.counters)

-- A call of `once` counts the transfer as abandoned at most once, whatever the upload does and whatever
-- leaving the session raises behind it.
pub once-abandoned :
    (cfg : Config) (t : Transfer) (slowest : ℕ) (c : Counters)
    → given_up cfg (once cfg t slowest c).counters ≤ given_up cfg c + 1
unfolding once attempt start
once-abandoned cfg t slowest c = elim (Bool-cases (ltb 0 slowest && ltb t.left slowest)) [
  | inl e ↦ rw e (omega arith)
  | inr e ↦ rw e (outer-Tallied cfg t.late _ c _ (in_session-Tallied cfg t (start slowest c) refl))
]

-- A session that opens and closes well, and in it the server answers.
abbrev pub plain : ℕ → ℕ → ℕ → Bool → Transfer
plain st took left late = record {
  opening = none;
  upload = answered st;
  leaving = none;
  took = took;
  left = left;
  late = late;
}

-- `n` for the workload `tag` where `b` holds, and nothing else.
unfoldable pub only_for : Bool → Bytes → Bytes → ℕ → ℕ
only_for b tag i n = if b && equal i tag then n else 0

-- What a success leaves of the counters `c`: one more answer of 200 and one more success, in the mixed
-- run for the workload itself, and over h3 the bytes of the stream.
pub record IsSuccess (cfg : Config) (took slowest : ℕ) (c : Counters) (s : Course) : Type 0 where
  pub quiet : s.error ≡ none
  pub statuses : s.counters.statuses ≡ add_status 200 1 c.statuses
  pub counts : ok_ops s.counters ≡ ok_ops c + 1
  pub counts_by :
      (i : Bytes) → count i s.counters.ok_by ≡ count i c.ok_by + only_for cfg.mixed cfg.tag i 1
  pub carries : s.counters.xfer ≡ c.xfer + (if cfg.is_h3 then cfg.stream else 0)
  pub carries_by :
      (i : Bytes)
      → count i s.counters.xfer_by
        ≡ count i c.xfer_by + only_for (cfg.is_h3 && cfg.mixed) cfg.tag i cfg.stream
  pub kept : s.counters.abandoned ≡ c.abandoned
  pub longest : s.slowest ≡ max slowest took

-- What becomes of the status `st`.
abbrev pub Judged : Config → ℕ → ℕ → ℕ → Counters → Course → Type 0
Judged cfg st took slowest c s =
    ((st ≡ 200) × IsSuccess cfg took slowest c s)
    ⊎ ((st ≢ 200) × ((text : Bytes) × (s.error ≡ some (fail text))) × (s.counters ≡ c))
