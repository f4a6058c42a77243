-- ===== src/Stress.antt =====
-- The counters of conformance/stress/client/stress_client.py, and the transfer of its upload workload.
pub mod Tallies
pub mod Transfers
pub mod Main
pub mod Download
pub mod Workers
pub mod Reports
pub mod Tests
use nim_vortex.Prelude.{
  ℕ, zero, suc, ◌+◌, ◌-◌, ◌*◌, ◌/◌, ◌%◌, ◌^◌, ◌≤◌, ◌<◌, min, max, ◌≡◌, ◌≢◌, ◌⊎◌, inl, inr, ◌↔◌,
  refl, sym, ap, ◌∙◌, Bool, true, false, not, ◌&&◌, ◌||◌, Option, none, some, List, [], ◌∷◌, ◌++◌,
  map, append-nil, append_assoc, length, get_elem?, get_or, take, drop, replicate, ltb, leb, ◌==◌,
  if◌then◌else◌, arith, ltb→lt, lt→ltb, leb→le, ==_iff, Bool-cases, Option-cases, length-append,
  length-take, length-drop, take-append-drop, take-append, drop-append, drop-nil, drop-drop,
  get_or-drop, get_or-append_left, drop-append_left, take-append_left, slice-append_left, drop_all,
}
use nim_vortex.Prelude.Bytes.{Bytes, codes, equal}
use nim_vortex.Prelude.Text.{starts_with, show}
use nim_vortex.Prelude.Dict.{Dict}

-- `codes`, `ok_by`, `abandoned`, and `xfer[0]` with `xfer_by` of transport.py.
pub record Counters : Type 0 where
  pub statuses : List (ℕ × ℕ)
  pub ok_by : Dict ℕ
  pub abandoned : Dict ℕ
  pub xfer : ℕ
  pub xfer_by : Dict ℕ

-- `counter[k] += n`
unfoldable pub add : Bytes → ℕ → Dict ℕ → Dict ℕ
add k n [] = (k, n) ∷ []
add k n ((j, m) ∷ d) = if equal k j then (j, m + n) ∷ d else (j, m) ∷ add k n d

-- `counter[k]`
unfoldable pub count : Bytes → Dict ℕ → ℕ
count k [] = 0
count k ((j, m) ∷ d) = if equal k j then m else count k d

unfoldable pub add_status : ℕ → ℕ → List (ℕ × ℕ) → List (ℕ × ℕ)
add_status c n [] = (c, n) ∷ []
add_status c n ((d, m) ∷ cs) = if c == d then (d, m + n) ∷ cs else (d, m) ∷ add_status c n cs

unfoldable pub is_ok : ℕ → Bool
is_ok status = leb 200 status && ltb status 300

-- `bump(status, n)`, for the workload `tag` of the task; `mixed` is IS_MIXED.
unfoldable pub bump : Bool → Bytes → ℕ → ℕ → Counters → Counters
bump mixed tag status n c = record c {
  statuses = add_status status n c.statuses;
  ok_by = if is_ok status && mixed then add tag n c.ok_by else c.ok_by;
}

-- `ok_ops()`
unfoldable pub ok_sum : List (ℕ × ℕ) → ℕ
ok_sum [] = 0
ok_sum ((c, n) ∷ cs) = (if is_ok c then n else 0) + ok_sum cs

unfoldable pub ok_ops : Counters → ℕ
ok_ops c = ok_sum c.statuses

-- `add_xfer(n)`
unfoldable pub add_xfer : Bool → Bytes → ℕ → Counters → Counters
add_xfer mixed tag n c = record c {
  xfer = c.xfer + n;
  xfer_by = if mixed then add tag n c.xfer_by else c.xfer_by;
}

-- `moved(tag)`
unfoldable pub moved : Bool → Bytes → Counters → ℕ
moved mixed tag c = if mixed then count tag c.xfer_by else c.xfer

-- The three diagnoses of `no_progress(tag)`, and the message for a workload that started nothing.
pub data Diagnosis : Type 0 where
  no_iterations : Diagnosis
  too_big undecidable stalled : ℕ → ℕ → Diagnosis

unfoldable pub no_progress : Bool → Bool → Bytes → Counters → Diagnosis
no_progress mixed is_h3 tag c =
    let n = count tag c.abandoned in
    let bytes_moved = moved mixed tag c in
    if n == 0
    then no_iterations
    else if ltb 0 bytes_moved
    then too_big n bytes_moved
    else if equal tag (codes "streamupload") && is_h3
    then undecidable n bytes_moved
    else stalled n bytes_moved

-- An exception, as far as the handlers tell them apart; an AttributeError with its text.
pub data Fault : Type 0 where
  attribute_error : Bytes → Fault
  cancelled : Fault
  fail : Bytes → Fault
  other_error : Bytes → Fault

-- `part in text`
unfoldable pub has_part : Bytes → Bytes → Bool
has_part part [] = starts_with [] part
has_part part (c ∷ s) = starts_with (c ∷ s) part || has_part part s

-- `teardown_race(exc)`
unfoldable pub teardown_race : Fault → Bool
teardown_race cancelled = true
teardown_race (attribute_error text) = has_part (codes "call_soon") text
teardown_race (fail text) = false
teardown_race (other_error text) = false

-- `except (AttributeError, asyncio.CancelledError)`
unfoldable pub caught : Fault → Bool
caught (attribute_error text) = true
caught cancelled = true
caught (fail text) = false
caught (other_error text) = false

-- How `asyncio.wait_for(s.upload(...))` ends.
pub data Upload : Type 0 where
  answered : ℕ → Upload
  timed_out : Upload
  raised : Fault → Upload

-- One transfer: what opening the session, the upload and leaving the session do, the time it took, the
-- time left when it began, and whether the deadline has passed when an exception arrives.
pub record Transfer : Type 0 where
  pub opening : Option Fault
  pub upload : Upload
  pub leaving : Option Fault
  pub took : ℕ
  pub left : ℕ
  pub late : Bool

-- The counters, `counted[0]`, `slowest[0]`, and the exception that is on its way.
pub record Course : Type 0 where
  pub counters : Counters
  pub counted : Bool
  pub slowest : ℕ
  pub error : Option Fault

-- What a run is configured to: IS_MIXED, IS_H3, the workload and STREAM.
pub record Config : Type 0 where
  pub mixed : Bool
  pub is_h3 : Bool
  pub tag : Bytes
  pub stream : ℕ

unfoldable pub abandon : Config → Counters → Counters
abandon cfg c = record c { abandoned = add cfg.tag 1 c.abandoned }

unfoldable pub complete : Config → ℕ → Course → Course
complete cfg took s = record s {
  counters =
      let c = bump cfg.mixed cfg.tag 200 1 s.counters in
      if cfg.is_h3 then add_xfer cfg.mixed cfg.tag cfg.stream c else c;
  slowest = max s.slowest took;
}

-- The upload inside the session, with the inner `except`.
unfoldable pub transfer : Config → Upload → ℕ → Course → Course
transfer cfg timed_out took s = record s { counters = abandon cfg s.counters; counted = true }
transfer cfg (raised f) took s = record s { error = some f }
transfer cfg (answered st) took s =
    if st == 400
    then record s { error = some (fail (codes "server rejected the SHA-1 (400)")) }
    else if st == 200
    then complete cfg took s
    else record s { error = some (fail (codes "upload -> " ++ show st)) }

-- Leaving the session: an exception raised there takes the place of one on its way.
unfoldable pub leave : Option Fault → Course → Course
leave none s = s
leave (some f) s = record s { error = some f }

unfoldable pub enter : Option Fault → Course → Course → Course
enter none s inside = inside
enter (some f) s inside = record s { error = some f }

unfoldable pub in_session : Config → Transfer → Course → Course
in_session cfg t s = enter t.opening s (leave t.leaving (transfer cfg t.upload t.took s))

-- The outer `except`: past the deadline a teardown race is the expiry itself.
unfoldable pub outer : Config → Bool → Option Fault → Course → Course
outer cfg late none s = s
outer cfg late (some f) s =
    if caught f && (late && teardown_race f)
    then record s {
      error = none;
      counters = if s.counted then s.counters else abandon cfg s.counters;
    }
    else s

unfoldable pub start : ℕ → Counters → Course
start slowest c = record { counters = c; counted = false; slowest = slowest; error = none }

-- The `try` with its outer `except`.
unfoldable pub attempt : Config → Transfer → Course → Course
attempt cfg t s = let s' = in_session cfg t s in outer cfg t.late s'.error s'

-- `once(slowest)` of `w_streamupload`
unfoldable pub once : Config → Transfer → ℕ → Counters → Course
once cfg t slowest c =
    if ltb 0 slowest && ltb t.left slowest then start slowest c else attempt cfg t (start slowest c)
