-- ===== src/Sse/Tests.antt =====
-- Runs of the line reader.
use nim_vortex.Prelude.{ℕ, zero, suc, ◌≡◌, refl, Bool, true, false, List, [], ◌∷◌, ◌++◌}
use nim_vortex.Prelude.Bytes.{Bytes, codes}
use nim_vortex.Prelude.Text.{
  partition, show, show_onto, starts_with, strip, rstrip, lstrip, keep_or_drop, is_space, is_digit,
}
use nim_vortex.Prelude.Ints.{
  int_of_bytes, signed, digits_from, digit_count, skip_spaces, trim_right, keep_inner,
  is_ascii_space,
}
use nim_vortex.Sse.Feed.{
  connection, Sequence, passed, failed, waiting, sequence, sequence_from, feed_lines, feed_line,
  take_data, set_id, close, is_number, no_feed,
}
use nim_vortex.Sse.Feed.Counts.{all_ascii, are_ascii, is_ascii, Takes}
use nim_vortex.Sse.Feed.Order.{Closes, connection-Closes, Stands, sequence-Stands}
use nim_vortex.Sse.{rstrip_cr, keep_unless_cr, cut_lines, read_lines}
use nim_vortex.Sse.Lines.{lines_of, joined, read_lines-lines_of}

-- A line cut in two, a carriage return, and a last line with no newline.
abbrev chunks : List Bytes
chunks = codes "id:" ∷ codes "1\r\ndata:x\n\nda" ∷ []

read_lines_run : read_lines [] chunks ≡ codes "id:1" ∷ codes "data:x" ∷ [] ∷ []
unfolding read_lines cut_lines partition rstrip_cr keep_unless_cr
read_lines_run = refl

read_lines-lines_of_example : read_lines [] chunks ≡ (lines_of [] ([] ++ joined chunks)).0
unfolding lines_of
read_lines-lines_of_example = read_lines-lines_of [] chunks refl

-- The events from `n` on, as lines.
events_from : ℕ → ℕ → List Bytes
events_from zero n = []
events_from (suc count) n =
    (codes "id: " ++ show n) ∷ codes "data: x" ∷ [] ∷ events_from count (suc n)

abbrev two_batches : List (ℕ × List Bytes)
two_batches = (200, events_from 20 0) ∷ (200, events_from 20 20) ∷ []

ascii_batches : all_ascii two_batches ≡ true
unfolding all_ascii are_ascii is_ascii events_from show show_onto
ascii_batches = refl

sequence-Stands_example :
    Stands 2 (sequence two_batches) × Takes 0 two_batches (sequence two_batches)
sequence-Stands_example = sequence-Stands two_batches ascii_batches

twenty_close : Closes 0 (connection 200 (events_from 20 0) no_feed)
twenty_close = connection-Closes 200 (events_from 20 0) no_feed refl

passes : Sequence → Bool
passes (passed f rest) = true
passes (failed r) = false
passes (waiting f) = false

-- A server that ignores the batches and sends all 100 events at once is not found out.
all_at_once : passes (sequence ((200, events_from 100 0) ∷ [])) ≡ true
unfolding passes sequence sequence_from connection feed_lines feed_line take_data set_id close
    is_number events_from show show_onto starts_with int_of_bytes signed digits_from digit_count
    skip_spaces trim_right keep_inner is_ascii_space strip rstrip lstrip keep_or_drop is_space
    is_digit
all_at_once = refl
