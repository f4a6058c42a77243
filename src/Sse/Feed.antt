-- ===== src/Sse/Feed.antt =====
-- The event feed of `w_sse` in conformance/stress/client/stress_client.py: what one sequence checks of the
-- connections that it reads, each given by its status and the lines that came before it closed.
pub mod Numbers
pub mod Counts
pub mod Order
use nim_vortex.Prelude.{
  ℕ, zero, suc, ◌+◌, ◌-◌, ◌*◌, ◌/◌, ◌%◌, ◌^◌, ◌≤◌, ◌<◌, min, max, ◌≡◌, ◌≢◌, ◌⊎◌, inl, inr, ◌↔◌,
  refl, sym, ap, ◌∙◌, Bool, true, false, not, ◌&&◌, ◌||◌, Option, none, some, List, [], ◌∷◌, ◌++◌,
  map, append-nil, append_assoc, length, get_elem?, get_or, take, drop, replicate, ltb, leb, ◌==◌,
  if◌then◌else◌, arith, ltb→lt, lt→ltb, leb→le, ==_iff, Bool-cases, Option-cases, length-append,
  length-take, length-drop, take-append-drop, take-append, drop-append, drop-nil, drop-drop,
  get_or-drop, get_or-append_left, drop-append_left, take-append_left, slice-append_left, drop_all,
}
use nim_vortex.Prelude.Bytes.{Bytes, codes}
use nim_vortex.Prelude.Text.{starts_with, strip}
use nim_vortex.Prelude.Ints.{ℤ, pos, negsuc, int_of_bytes}

-- `total` and `batch`
abbrev pub total : ℕ
total = 100

abbrev pub batch : ℕ
batch = 20

-- The variables of the loop over the lines. A new connection sends `last` as its last-event-id, and each event
-- that counts is also a `bump(200)`.
pub record Feed : Type 0 where
  pub got : ℕ
  pub last : Option ℤ
  pub progressed : Bool
  pub cur_id : Option ℤ
  pub this_batch : ℕ

-- Why a sequence fails; the last is the ValueError of `int`.
pub data Failure : Type 0 where
  bad_status : ℕ → Failure
  out_of_order : ℤ → ℕ → Failure
  no_progress : Failure
  short_batch : ℕ → ℕ → Failure
  value_error : Failure

pub data Fed : Type 0 where
  feeds : Feed → Fed
  fails : Failure → Fed

unfoldable pub is_number : ℤ → ℕ → Bool
is_number (pos m) n = m == n
is_number (negsuc m) n = false

unfoldable pub set_id : Option ℤ → Feed → Fed
set_id none f = fails value_error
set_id (some n) f = feeds (record f { cur_id = some n })

-- A `data:` line, which counts when an `id:` line stood before it.
unfoldable pub take_data : Option ℤ → Feed → Fed
take_data none f = feeds f
take_data (some n) f =
    if is_number n f.got
    then feeds (record {
      got = suc f.got;
      last = some n;
      progressed = true;
      cur_id = none;
      this_batch = f.this_batch + 1;
    })
    else fails (out_of_order n f.got)

-- A line is a decoded text, of which `strip` and `int` are modelled where it is ASCII.
unfoldable pub feed_line : Feed → Bytes → Fed
feed_line f line =
    if starts_with line (codes "id:")
    then set_id (int_of_bytes (strip (drop 3 line))) f
    else if starts_with line (codes "data:")
    then take_data f.cur_id f
    else feeds f

abbrev pub then_feed : Fed → (Feed → Fed) → Fed
then_feed (feeds f) next = next f
then_feed (fails r) next = fails r

unfoldable pub feed_lines : List Bytes → Feed → Fed
feed_lines [] f = feeds f
feed_lines (line ∷ lines) f = then_feed (feed_line f line) (feed_lines lines)

-- The checks when a connection has closed.
unfoldable pub close : Feed → Fed
close f =
    if not f.progressed
    then fails no_progress
    else if ltb f.got total && not (f.this_batch == batch)
    then fails (short_batch f.this_batch f.got)
    else feeds f

-- One connection, which starts a batch of its own.
unfoldable pub connection : ℕ → List Bytes → Feed → Fed
connection status lines f =
    if status == 200
    then then_feed
        (feed_lines lines (record f { progressed = false; cur_id = none; this_batch = 0 })) close
    else fails (bad_status status)

-- One sequence: it passes, fails, or still waits for a connection.
pub data Sequence : Type 0 where
  passed : Feed → List (ℕ × List Bytes) → Sequence
  failed : Failure → Sequence
  waiting : Feed → Sequence

abbrev pub go_on : Fed → (Feed → Sequence) → Sequence
go_on (feeds f) next = next f
go_on (fails r) next = failed r

-- The loop `while got < total`.
unfoldable pub sequence_from : Feed → List (ℕ × List Bytes) → Sequence
sequence_from f [] = if ltb f.got total then waiting f else passed f []
sequence_from f ((status, lines) ∷ cs) =
    if ltb f.got total
    then go_on (connection status lines f) (λ f'. sequence_from f' cs)
    else passed f ((status, lines) ∷ cs)

abbrev pub no_feed : Feed
no_feed = record { got = 0; last = none; progressed = false; cur_id = none; this_batch = 0 }

unfoldable pub sequence : List (ℕ × List Bytes) → Sequence
sequence cs = sequence_from no_feed cs
