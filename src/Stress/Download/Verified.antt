-- ===== src/Stress/Download/Verified.antt =====
-- What a download counts.
use nim_vortex.Prelude.{
  ℕ, ◌+◌, ◌≤◌, ◌≡◌, refl, sym, ap, ◌∙◌, Bool, true, false, Option, none, some, List, [], ◌∷◌, ◌++◌,
  append-nil, append_assoc, length, ◌==◌, arith, length-append,
}
use nim_vortex.Prelude.Bytes.{Bytes, equal_refl}
use nim_vortex.Stress.{Counters, bump, add_xfer, Fault, Config}
use nim_vortex.Stress.Transfers.{given_up, given_up-abandon}
use nim_vortex.Stress.Download.{
  Download, Transferred, raised_error, abandons, completes, verify, at_end, receive, leave_with,
  inside, in_session, transfer, settle, once,
}

unfoldable pub joined : List (Bytes × Bool) → Bytes
joined [] = []
joined ((d, late) ∷ ds) = d ++ joined ds

-- The deadline has not passed at any of the chunks.
abbrev pub AreInTime : List (Bytes × Bool) → Type 0
AreInTime [] = Unit
AreInTime ((d, late) ∷ ds) = (late ≡ false) × AreInTime ds

-- A download that opens and closes well and whose stream ends.
abbrev pub whole : List (Bytes × Bool) → Bool → Download
whole chunks late = record {
  opening = none;
  status = 200;
  chunks = chunks;
  broken = none;
  leaving = none;
  late = late;
}

-- The run counted one success and `n` bytes, and gave nothing up.
abbrev pub Counts : Config → ℕ → Counters → Counters → Type 0
Counts cfg n c c' =
    (c'.xfer ≡ c.xfer + n)
    × (c'.statuses ≡ (bump cfg.mixed cfg.tag 200 1 c).statuses)
    × (c'.abandoned ≡ c.abandoned)

verify_lem :
    (sha1 : Bytes → Bytes) (cfg : Config) (body : Bytes) (c : Counters)
    → length body ≡ cfg.stream
    → verify sha1 cfg (sha1 body) body c ≡ (completes, bump cfg.mixed cfg.tag 200 1 c)
unfolding verify
verify_lem sha1 cfg body c l =
    let same : (length body == cfg.stream) ≡ true = ground arith in
    rw (same, equal_refl (sha1 body)) refl

receive-whole :
    (sha1 : Bytes → Bytes) (cfg : Config) (body : Bytes) (ds : List (Bytes × Bool))
    (received : Bytes) (c : Counters)
    → AreInTime ds
    → received ++ joined ds ≡ body
    → length body ≡ cfg.stream
    → ((receive sha1 cfg (sha1 body) none ds received c).0 ≡ completes)
      × Counts cfg (length (joined ds)) c (receive sha1 cfg (sha1 body) none ds received c).1
unfolding receive at_end joined bump add_xfer
receive-whole sha1 cfg body [] received c t e l =
    let all : received ≡ body = sym (append-nil received) ∙ e in
    rw (all, verify_lem sha1 cfg body c l) (refl, (omega arith, refl, refl))
receive-whole sha1 cfg body ((d, late) ∷ ds) received c (t, ts) e l =
    let (r, (x, s, a)) =
      receive-whole sha1 cfg body ds (received ++ d) (add_xfer cfg.mixed cfg.tag (length d) c) ts
        (append_assoc received d (joined ds) ∙ e) l in
    rw t (r, (omega (arith, x, length-append d (joined ds)), s, a))

-- The body that the server promises, however it is cut into chunks, passes: a download that arrives whole before
-- the deadline raises nothing, counts one success and its bytes, and is not given up. The hash is
-- any function.
pub once-Counts :
    (sha1 : Bytes → Bytes) (cfg : Config) (chunks : List (Bytes × Bool)) (late : Bool)
    (c : Counters)
    → AreInTime chunks
    → length (joined chunks) ≡ cfg.stream
    → ((once sha1 cfg (sha1 (joined chunks)) (whole chunks late) c).0 ≡ none)
      × Counts cfg cfg.stream c (once sha1 cfg (sha1 (joined chunks)) (whole chunks late) c).1
unfolding once transfer in_session inside leave_with settle
once-Counts sha1 cfg chunks late c t l =
    let (r, (x, s, a)) = receive-whole sha1 cfg (joined chunks) chunks [] c t refl l in
    rw r (refl, (x ∙ ap (λ (n : ℕ). c.xfer + n) l, s, a))

-- The counters that `transfer` leaves, as to what was given up.
receive-given_up :
    (sha1 : Bytes → Bytes) (cfg : Config) (want : Bytes) (b : Option Fault)
    (ds : List (Bytes × Bool)) (received : Bytes) (c : Counters)
    → given_up cfg (receive sha1 cfg want b ds received c).1 ≡ given_up cfg c
unfolding receive at_end verify bump add_xfer
receive-given_up sha1 cfg want none [] received c = ground arith
receive-given_up sha1 cfg want (some f) [] received c = refl
receive-given_up sha1 cfg want b ((d, late) ∷ ds) received c = ground (
  arith,
  receive-given_up sha1 cfg want b ds (received ++ d) (add_xfer cfg.mixed cfg.tag (length d) c),
)

in_session-given_up :
    (cfg : Config) (o l : Option Fault) (x : Transferred × Counters) (c : Counters)
    → given_up cfg x.1 ≡ given_up cfg c
    → given_up cfg (in_session o l x c).1 ≡ given_up cfg c
unfolding in_session
in_session-given_up cfg none l (r, c') c h = h
in_session-given_up cfg (some f) l (r, c') c h = refl

settle-given_up :
    (cfg : Config) (late : Bool) (r : Transferred) (c : Counters)
    → given_up cfg (settle cfg late r c).1 ≤ given_up cfg c + 1
unfolding settle
settle-given_up cfg late completes c = omega arith
settle-given_up cfg late abandons c = omega (arith, given_up-abandon cfg c)
settle-given_up cfg late (raised_error f) c = ground (arith, given_up-abandon cfg c)

inside-given_up :
    (sha1 : Bytes → Bytes) (cfg : Config) (want : Bytes) (d : Download) (c : Counters)
    → given_up cfg (inside sha1 cfg want d c).1 ≡ given_up cfg c
unfolding inside
inside-given_up sha1 cfg want d c =
    ground (arith, receive-given_up sha1 cfg want d.broken d.chunks [] c)

-- A download counts itself as abandoned at most once, whatever the stream and the session raise.
pub once-given_up :
    (sha1 : Bytes → Bytes) (cfg : Config) (want : Bytes) (d : Download) (c : Counters)
    → given_up cfg (once sha1 cfg want d c).1 ≤ given_up cfg c + 1
unfolding once transfer
once-given_up sha1 cfg want d c =
    let x = in_session d.opening d.leaving (inside sha1 cfg want d c) c in
    omega (
      arith,
      settle-given_up cfg d.late x.0 x.1,
      in_session-given_up cfg d.opening d.leaving (inside sha1 cfg want d c) c
          (inside-given_up sha1 cfg want d c),
    )
