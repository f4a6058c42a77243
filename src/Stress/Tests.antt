-- ===== src/Stress/Tests.antt =====
-- Runs of the counters and of one upload.
use nim_vortex.Prelude.{
  ℕ, ◌+◌, ◌%◌, ◌≤◌, ◌≡◌, ◌↔◌, refl, Bool, true, false, none, some, List, [], ◌∷◌, replicate,
}
use nim_vortex.Stress.Download
use nim_vortex.Stress.Download.{Download}
use nim_vortex.Stress.Download.Verified.{joined, Counts, whole, once-Counts, once-given_up}
use nim_vortex.Prelude.Bytes.{Bytes, codes}
use nim_vortex.Stress.{Counters, ok_sum, ok_ops, attribute_error, timed_out, Transfer, Config, once}
use nim_vortex.Prelude.Text.{contains}
use nim_vortex.Stress.Main.{workloads, finished, main}
use nim_vortex.Stress.Main.Passes.{Progresses, passes, main-passes}
use nim_vortex.Stress.{count}
use nim_vortex.Stress.Tallies.{sum_by, credited, bump_all, bump_all-ok_ops}
use nim_vortex.Stress.Transfers.{given_up, once-abandoned}

abbrev no_counts : Counters
no_counts = record { statuses = []; ok_by = []; abandoned = []; xfer = 0; xfer_by = [] }

abbrev bumps : List (Bytes × ℕ × ℕ)
bumps = (codes "ws", 200, 3) ∷ (codes "sse", 503, 1) ∷ (codes "sse", 200, 2) ∷ []

bump_all-ok_ops_example :
    (sum_by (bump_all bumps no_counts).ok_by ≡ ok_ops (bump_all bumps no_counts))
    × ((i : Bytes)
        → count i (bump_all bumps no_counts).ok_by ≡ count i no_counts.ok_by + credited i bumps)
unfolding sum_by ok_ops ok_sum
bump_all-ok_ops_example = bump_all-ok_ops bumps no_counts refl

abbrev cfg : Config
cfg = record { mixed = true; is_h3 = true; tag = codes "streamupload"; stream = 1000 }

-- The deadline cancels the upload, and leaving the session raises the teardown race.
abbrev raced : Transfer
raced = record {
  opening = none;
  upload = timed_out;
  leaving = some (attribute_error (codes "no attribute 'call_soon'"));
  took = 10;
  left = 10;
  late = true;
}

once-abandoned_example :
    given_up cfg (once cfg raced 0 no_counts).counters ≤ given_up cfg no_counts + 1
once-abandoned_example = once-abandoned cfg raced 0 no_counts

main-passes_example :
    (passes (
        main true
          (codes "mixed")
          ((codes "ws", 3) ∷ (codes "sse", 2) ∷ [])
          (bump_all bumps no_counts)
          finished)
      ≡ true)
    ↔ ((contains (codes "mixed") workloads ≡ true)
        × (finished ≡ finished)
        × Progresses
            (codes "mixed")
            ((codes "ws", 3) ∷ (codes "sse", 2) ∷ [])
            (bump_all bumps no_counts))
main-passes_example =
    main-passes true (codes "mixed") ((codes "ws", 3) ∷ (codes "sse", 2) ∷ [])
      (bump_all bumps no_counts) finished

-- Any function will do as the hash, such as the sum of the bytes.
sum_of : Bytes → ℕ
sum_of [] = 0
sum_of (b ∷ bs) = b + sum_of bs

checksum : Bytes → Bytes
checksum bs = sum_of bs % 256 ∷ []

abbrev in_chunks : List (Bytes × Bool)
in_chunks = (replicate 600 7, false) ∷ (replicate 400 9, false) ∷ []

once-Counts_example :
    ((Download.once checksum cfg (checksum (joined in_chunks)) (whole in_chunks true) no_counts).0
      ≡ none)
    × Counts cfg 1000 no_counts
        (Download.once checksum cfg
          (checksum (joined in_chunks))
          (whole in_chunks true)
          no_counts).1
unfolding joined
once-Counts_example = once-Counts checksum cfg in_chunks true no_counts (refl, (refl, tt)) refl

once-given_up_example :
    given_up cfg (Download.once checksum cfg [] (whole ((7 ∷ [], true) ∷ []) true) no_counts).1
    ≤ given_up cfg no_counts + 1
once-given_up_example = once-given_up checksum cfg [] (whole ((7 ∷ [], true) ∷ []) true) no_counts
