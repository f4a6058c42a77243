-- ===== src/Sse/Feed/Counts.antt =====
-- The numbers that a sequence counts over its connections.
use nim_vortex.Prelude.{
  ℕ, ◌+◌, ◌≡◌, inl, inr, refl, sym, ap, ◌∙◌, Bool, true, ◌&&◌, none, List, [], ◌∷◌, ◌++◌,
  append_assoc, append-nil, ltb, arith, Bool-cases,
}
use nim_vortex.Prelude.Bytes.{Bytes}
use nim_vortex.Prelude.Ints.{ℤ}
use nim_vortex.Sse.Feed.{
  total, Feed, Failure, short_batch, no_progress, value_error, bad_status, out_of_order, Fed, feeds,
  fails, connection, Sequence, passed, failed, waiting, go_on, sequence_from,
}
use nim_vortex.Sse.Feed.Numbers.{
  ids_of, all_ids, numbered, numbered-append, Misses, Brings, connection-Brings,
}

-- All the lines are ASCII.
unfoldable pub is_ascii : Bytes → Bool
is_ascii [] = true
is_ascii (c ∷ text) = ltb c 128 && is_ascii text

unfoldable pub are_ascii : List Bytes → Bool
are_ascii [] = true
are_ascii (line ∷ lines) = is_ascii line && are_ascii lines

unfoldable pub all_ascii : List (ℕ × List Bytes) → Bool
all_ascii [] = true
all_ascii ((status, lines) ∷ cs) = are_ascii lines && all_ascii cs

-- What a sequence has made of the connections `cs`, when it began with the count at `base`: those that it
-- used brought the numbers from `base` on, in order and none missing, as many as it counts.
abbrev pub Takes : ℕ → List (ℕ × List Bytes) → Sequence → Type 0
Takes base cs (passed f rest) =
    (used : List (ℕ × List Bytes)) × (k : ℕ) × (cs ≡ used ++ rest)
    × (f.got ≡ base + k)
    × (all_ids used ≡ numbered base k)
Takes base cs (failed r) = Misses base (all_ids cs) r
Takes base cs (waiting f) = (k : ℕ) × (f.got ≡ base + k) × (all_ids cs ≡ numbered base k)

Misses-later :
    (base k from : ℕ) (ids later : List ℤ) (r : Failure)
    → from ≡ base + k
    → ids ≡ numbered base k
    → Misses from later r
    → Misses base (ids ++ later) r
Misses-later base k from ids later (out_of_order z n) e i (j, more, g, h, m) = (
  k + j,
  more,
  omega arith,
  rw (i, h) (numbered-append base k j from (k + j) (z ∷ more) e refl),
  m,
)
Misses-later base k from ids later (bad_status status) e i h = tt
Misses-later base k from ids later no_progress e i h = tt
Misses-later base k from ids later (short_batch count got) e i h = tt
Misses-later base k from ids later value_error e i h = tt

Misses-append :
    (base : ℕ) (ids later : List ℤ) (r : Failure) → Misses base ids r → Misses base (ids ++ later) r
Misses-append base ids later (out_of_order z n) (k, more, g, h, m) =
    (k, more ++ later, g, rw h (append_assoc (numbered base k) (z ∷ more) later), m)
Misses-append base ids later (bad_status status) h = tt
Misses-append base ids later no_progress h = tt
Misses-append base ids later (short_batch count got) h = tt
Misses-append base ids later value_error h = tt

joined-numbers :
    (base k from j : ℕ) (ids later : List ℤ)
    → from ≡ base + k
    → ids ≡ numbered base k
    → later ≡ numbered from j
    → ids ++ later ≡ numbered base (k + j)
joined-numbers base k from j ids later e i l =
    rw (i, l)
      (ap (λ (t : List ℤ). numbered base k ++ t) (sym (append-nil (numbered from j)))
        ∙ numbered-append base k j from (k + j) [] e refl
        ∙ append-nil (numbered base (k + j)))

Takes-later :
    (base k from : ℕ) (c : ℕ × List Bytes) (cs : List (ℕ × List Bytes)) (s : Sequence)
    → from ≡ base + k
    → ids_of none c.1 ≡ numbered base k
    → Takes from cs s
    → Takes base (c ∷ cs) s
unfolding all_ids
Takes-later base k from c cs (passed f rest) e i (used, j, s, g, h) = (
  c ∷ used,
  k + j,
  ap (λ (t : List (ℕ × List Bytes)). c ∷ t) s,
  omega arith,
  joined-numbers base k from j (ids_of none c.1) (all_ids used) e i h,
)
Takes-later base k from c cs (failed r) e i h =
    Misses-later base k from (ids_of none c.1) (all_ids cs) r e i h
Takes-later base k from c cs (waiting f) e i (j, g, h) =
    (k + j, omega arith, joined-numbers base k from j (ids_of none c.1) (all_ids cs) e i h)

go_on-Takes :
    (base status : ℕ) (lines : List Bytes) (cs : List (ℕ × List Bytes)) (x : Fed)
    (next : Feed → Sequence)
    → Brings base (ids_of none lines) x
    → ((f : Feed) → Takes f.got cs (next f))
    → Takes base ((status, lines) ∷ cs) (go_on x next)
go_on-Takes base status lines cs (feeds f) next (k, g, e) h =
    Takes-later base k f.got (status, lines) cs (next f) g e (h f)
go_on-Takes base status lines cs (fails r) next b h =
    unfold all_ids in Misses-append base (ids_of none lines) (all_ids cs) r b

pub sequence_from-Takes :
    (cs : List (ℕ × List Bytes)) (f : Feed) → Takes f.got cs (sequence_from f cs)
unfolding sequence_from all_ids numbered
sequence_from-Takes [] f = elim (Bool-cases (ltb f.got total)) [
  | inl e ↦ rw e (0, omega arith, refl)
  | inr e ↦ rw e ([], 0, refl, omega arith, refl)
]
sequence_from-Takes ((status, lines) ∷ cs) f = elim (Bool-cases (ltb f.got total)) [
  | inl e ↦ rw e (
      go_on-Takes f.got status lines cs (connection status lines f) (λ f'. sequence_from f' cs)
        (connection-Brings status lines f) (sequence_from-Takes cs))
  | inr e ↦ rw e ([], 0, refl, omega arith, refl)
]
