-- ===== src/Sse/Feed/Order.antt =====
-- What a sequence of the feed establishes: the events come in order, in full batches.
use nim_vortex.Prelude.{
  ℕ, zero, suc, ◌+◌, ◌*◌, ◌≤◌, ◌<◌, ◌≡◌, ◌⊎◌, inl, inr, refl, ap, Bool, true, false, not, ◌&&◌,
  Option, none, some, List, [], ◌∷◌, length, drop, ltb, ◌==◌, if◌then◌else◌, arith, ltb→lt,
  Bool-cases,
}
use nim_vortex.Prelude.Bytes.{Bytes, codes}
use nim_vortex.Prelude.Text.{starts_with, strip}
use nim_vortex.Prelude.Ints.{ℤ, pos, int_of_bytes}
use nim_vortex.Sse.Feed.{
  total, batch, Feed, short_batch, no_progress, Fed, feeds, fails, is_number, set_id, take_data,
  feed_line, then_feed, feed_lines, close, connection, Sequence, passed, failed, waiting, go_on,
  sequence_from, no_feed, sequence,
}
use nim_vortex.Sse.Feed.Numbers.{is_number_iff}
use nim_vortex.Sse.Feed.Counts.{all_ascii, Takes, sequence_from-Takes}

-- `last` is the number of the last of the `got` events.
abbrev pub InOrder : ℕ → Option ℤ → Type 0
InOrder zero last = last ≡ none
InOrder (suc m) last = last ≡ some (pos m)

-- Inside a connection that began at `base`.
abbrev Runs : ℕ → Feed → Type 0
Runs base f =
    InOrder f.got f.last × (f.got ≡ base + f.this_batch) × (f.progressed ≡ true → 1 ≤ f.this_batch)

abbrev RunsFed : ℕ → Fed → Type 0
RunsFed base (feeds f) = Runs base f
RunsFed base (fails r) = Unit

set_id-Runs : (base : ℕ) (z : Option ℤ) (f : Feed) → Runs base f → RunsFed base (set_id z f)
unfolding set_id
set_id-Runs base none f h = tt
set_id-Runs base (some n) f h = h

take_data-Runs : (base : ℕ) (z : Option ℤ) (f : Feed) → Runs base f → RunsFed base (take_data z f)
unfolding take_data
take_data-Runs base none f h = h
take_data-Runs base (some n) f (o, g, p) = elim (Bool-cases (is_number n f.got)) [
  | inl e ↦ rw e (ap some (is_number_iff n f.got e), omega arith, (λ x. omega arith))
  | inr e ↦ rw e tt
]

if-Runs :
    (b : Bool) (base : ℕ) (x y : Fed)
    → RunsFed base x
    → RunsFed base y
    → RunsFed base (if b then x else y)
if-Runs true base x y h k = h
if-Runs false base x y h k = k

feed_line-Runs :
    (base : ℕ) (f : Feed) (line : Bytes) → Runs base f → RunsFed base (feed_line f line)
unfolding feed_line
feed_line-Runs base f line h =
    if-Runs (starts_with line (codes "id:")) base (set_id (int_of_bytes (strip (drop 3 line))) f)
      (if starts_with line (codes "data:") then take_data f.cur_id f else feeds f)
      (set_id-Runs base (int_of_bytes (strip (drop 3 line))) f h)
      (if-Runs (starts_with line (codes "data:")) base (take_data f.cur_id f) (feeds f)
        (take_data-Runs base f.cur_id f h) h)

then_feed-Runs :
    (base : ℕ) (x : Fed) (next : Feed → Fed)
    → RunsFed base x
    → ((f : Feed) → Runs base f → RunsFed base (next f))
    → RunsFed base (then_feed x next)
then_feed-Runs base (feeds f) next h k = k f h
then_feed-Runs base (fails r) next h k = tt

feed_lines-Runs :
    (base : ℕ) (lines : List Bytes) (f : Feed) → Runs base f → RunsFed base (feed_lines lines f)
unfolding feed_lines
feed_lines-Runs base [] f h = h
feed_lines-Runs base (line ∷ lines) f h =
    then_feed-Runs base (feed_line f line) (feed_lines lines) (feed_line-Runs base f line h)
      (feed_lines-Runs base lines)

-- A connection that began at `base`, when it has closed.
abbrev pub Closes : ℕ → Fed → Type 0
Closes base (feeds f) =
    InOrder f.got f.last × (base < f.got) × ((total ≤ f.got) ⊎ (f.got ≡ base + batch))
Closes base (fails r) = Unit

if-Closes :
    (b : Bool) (base : ℕ) (f : Feed)
    → InOrder f.got f.last
    → base < f.got
    → (b ≡ false → (total ≤ f.got) ⊎ (f.got ≡ base + batch))
    → Closes base (if b then fails (short_batch f.this_batch f.got) else feeds f)
if-Closes true base f o l h = tt
if-Closes false base f o l h = (o, l, h refl)

progress-Closes :
    (b : Bool) (base : ℕ) (x : Fed)
    → (b ≡ true → Closes base x)
    → Closes base (if not b then fails no_progress else x)
progress-Closes true base x h = h refl
progress-Closes false base x h = tt

close-Closes : (base : ℕ) (x : Fed) → RunsFed base x → Closes base (then_feed x close)
unfolding close
close-Closes base (fails r) h = tt
close-Closes base (feeds f) (o, g, p) = progress-Closes f.progressed base _ (λ y.
    if-Closes (ltb f.got total && not (f.this_batch == batch)) base f o (omega (arith, p y))
      (λ h. ground arith))

-- A connection that passes carries the feed on in order: it brings at least one event, and a whole batch unless
-- it completes the sequence.
pub connection-Closes :
    (status : ℕ) (lines : List Bytes) (f : Feed)
    → InOrder f.got f.last
    → Closes f.got (connection status lines f)
unfolding connection
connection-Closes status lines f o = elim (Bool-cases (status == 200)) [
  | inl e ↦ rw e (
      close-Closes f.got
        (feed_lines lines (record f { progressed = false; cur_id = none; this_batch = 0 }))
        (feed_lines-Runs f.got lines _ (o, omega arith, (λ x. cc))))
  | inr e ↦ rw e tt
]

-- Where a sequence stands after `n` connections of those it was given.
abbrev pub Stands : ℕ → Sequence → Type 0
Stands n (passed f rest) = (total ≤ f.got) × InOrder f.got f.last
Stands n (failed r) = Unit
Stands n (waiting f) = (f.got ≡ batch * n) × (f.got < total) × InOrder f.got f.last

if-Stands :
    (b : Bool) (n : ℕ) (x y : Sequence)
    → (b ≡ true → Stands n x)
    → (b ≡ false → Stands n y)
    → Stands n (if b then x else y)
if-Stands true n x y h k = h refl
if-Stands false n x y h k = k refl

below :
    (got k n : ℕ)
    → ltb got total ≡ true
    → (total ≤ got) ⊎ (got ≡ batch * k)
    → n ≡ k + 0
    → got ≡ batch * n
below got k n lt h e = ground arith

go_on-Stands :
    (base k n : ℕ) (x : Fed) (next : Feed → Sequence)
    → base ≡ batch * k
    → Closes base x
    → ((f : Feed)
        → (total ≤ f.got) ⊎ (f.got ≡ batch * suc k)
        → InOrder f.got f.last
        → Stands n (next f))
    → Stands n (go_on x next)
go_on-Stands base k n (feeds f) next e (o, l, c) h = h f (ground arith) o
go_on-Stands base k n (fails r) next e c h = tt

sequence_from-Stands :
    (cs : List (ℕ × List Bytes)) (f : Feed) (k n : ℕ)
    → n ≡ k + length cs
    → (total ≤ f.got) ⊎ (f.got ≡ batch * k)
    → InOrder f.got f.last
    → Stands n (sequence_from f cs)
unfolding sequence_from
sequence_from-Stands [] f k n e h o =
    if-Stands (ltb f.got total) n (waiting f) (passed f [])
      (λ lt. (below f.got k n lt h e, ltb→lt f.got total lt, o)) (λ ge. (ground arith, o))
sequence_from-Stands ((status, lines) ∷ cs) f k n e h o =
    if-Stands (ltb f.got total) n _ (passed f ((status, lines) ∷ cs))
      (λ lt.
        go_on-Stands f.got k n (connection status lines f) (λ f'. sequence_from f' cs)
          (below f.got k k lt h (omega arith)) (connection-Closes status lines f o)
          (λ f' h' o'. sequence_from-Stands cs f' (suc k) n (omega arith) h' o'))
      (λ ge. (ground arith, o))

-- For lines of ASCII, and by the ids of the `data:` lines that stand behind an `id:` line: a sequence that
-- passes has used connections whose ids are 0, 1, 2 and so on in order, at least 100 of them. One that
-- still waits after the connections it was given has 20 events for each of them, their ids again 0, 1, 2
-- and so on in order, and fewer than 100. And where it fails for the order, the ids do go up in order to
-- that point, and the next one is not the number that is due.
pub sequence-Stands :
    (cs : List (ℕ × List Bytes))
    → all_ascii cs ≡ true
    → Stands (length cs) (sequence cs) × Takes 0 cs (sequence cs)
unfolding sequence
sequence-Stands cs ascii = (
  sequence_from-Stands cs no_feed 0 (length cs) (omega arith) (inr refl) refl,
  sequence_from-Takes cs no_feed,
)
