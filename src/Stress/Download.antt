-- ===== src/Stress/Download.antt =====
-- One transfer of `w_streamdownload` in conformance/stress/client/stress_client.py. The hash of the standard
-- library is the argument `sha1`: feeding it the chunks one by one hashes the chunks joined.
pub mod Verified
use nim_vortex.Prelude.{
  ℕ, zero, suc, ◌+◌, ◌-◌, ◌*◌, ◌/◌, ◌%◌, ◌^◌, ◌≤◌, ◌<◌, min, max, ◌≡◌, ◌≢◌, ◌⊎◌, inl, inr, ◌↔◌,
  refl, sym, ap, ◌∙◌, Bool, true, false, not, ◌&&◌, ◌||◌, Option, none, some, List, [], ◌∷◌, ◌++◌,
  map, append-nil, append_assoc, length, get_elem?, get_or, take, drop, replicate, ltb, leb, ◌==◌,
  if◌then◌else◌, arith, ltb→lt, lt→ltb, leb→le, ==_iff, Bool-cases, Option-cases, length-append,
  length-take, length-drop, take-append-drop, take-append, drop-append, drop-nil, drop-drop,
  get_or-drop, get_or-append_left, drop-append_left, take-append_left, slice-append_left, drop_all,
}
use nim_vortex.Prelude.Bytes.{Bytes, codes, equal}
use nim_vortex.Prelude.Text.{show}
use nim_vortex.Stress.{
  Counters, bump, add_xfer, Fault, fail, teardown_race, caught, Config, abandon,
}

-- What a download meets: opening the session, the status, the chunks, each with whether the deadline has
-- passed when it came, an exception in place of the stream's end, leaving the session, and whether
-- the deadline has passed when an exception arrives.
pub record Download : Type 0 where
  pub opening : Option Fault
  pub status : ℕ
  pub chunks : List (Bytes × Bool)
  pub broken : Option Fault
  pub leaving : Option Fault
  pub late : Bool

-- How `transfer()` ends: it raises, or returns whether it was abandoned.
pub data Transferred : Type 0 where
  raised_error : Fault → Transferred
  abandons : Transferred
  completes : Transferred

unfoldable pub verify : (Bytes → Bytes) → Config → Bytes → Bytes → Counters → Transferred × Counters
verify sha1 cfg want received c =
    if length received == cfg.stream && equal (sha1 received) want
    then (completes, bump cfg.mixed cfg.tag 200 1 c)
    else (raised_error (fail (codes "download mismatch: " ++ show (length received))), c)

unfoldable pub at_end :
    (Bytes → Bytes) → Config → Bytes → Option Fault → Bytes → Counters → Transferred × Counters
at_end sha1 cfg want none received c = verify sha1 cfg want received c
at_end sha1 cfg want (some f) received c = (raised_error f, c)

-- The loop over the chunks.
unfoldable pub receive :
    (Bytes → Bytes)
    → Config
    → Bytes
    → Option Fault
    → List (Bytes × Bool)
    → Bytes
    → Counters
    → Transferred × Counters
receive sha1 cfg want broken [] received c = at_end sha1 cfg want broken received c
receive sha1 cfg want broken ((d, late) ∷ ds) received c =
    let c' = add_xfer cfg.mixed cfg.tag (length d) c in
    let rest = receive sha1 cfg want broken ds (received ++ d) c' in
    if late then (abandons, c') else rest

unfoldable pub leave_with : Option Fault → Transferred → Transferred
leave_with none r = r
leave_with (some f) r = raised_error f

unfoldable pub inside :
    (Bytes → Bytes) → Config → Bytes → Download → Counters → Transferred × Counters
inside sha1 cfg want d c =
    if d.status == 200
    then receive sha1 cfg want d.broken d.chunks [] c
    else (raised_error (fail (codes "download status " ++ show d.status)), c)

unfoldable pub in_session :
    Option Fault → Option Fault → Transferred × Counters → Counters → Transferred × Counters
in_session none leaving (r, c') c = (leave_with leaving r, c')
in_session (some f) leaving (r, c') c = (raised_error f, c)

unfoldable pub transfer :
    (Bytes → Bytes) → Config → Bytes → Download → Counters → Transferred × Counters
transfer sha1 cfg want d c = in_session d.opening d.leaving (inside sha1 cfg want d c) c

-- The handler: the exception that leaves `once`, and the counters.
unfoldable pub settle : Config → Bool → Transferred → Counters → Option Fault × Counters
settle cfg late completes c = (none, c)
settle cfg late abandons c = (none, abandon cfg c)
settle cfg late (raised_error f) c =
    if caught f && (late && teardown_race f) then (none, abandon cfg c) else (some f, c)

-- `once()` of `w_streamdownload`, where `want` is `expected_sha1()`.
unfoldable pub once :
    (Bytes → Bytes) → Config → Bytes → Download → Counters → Option Fault × Counters
once sha1 cfg want d c = let (r, c') = transfer sha1 cfg want d c in settle cfg d.late r c'
