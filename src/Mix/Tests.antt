-- ===== src/Mix/Tests.antt =====
-- Runs of the worker mix.
use nim_vortex.Prelude.{ℕ, ◌≡◌, refl, [], ◌∷◌, arith}
use nim_vortex.Prelude.Bytes.{Bytes, codes, equal}
use nim_vortex.Prelude.Text.{contains}
use nim_vortex.Prelude.Dict.{Dict, keys, update}
use nim_vortex.Mix.{
  ok, requests, ws, sse, streamupload, streamdownload, mix_default, weighted, total, exact_shares,
  floors, idle, repair, parse_mix, split_mix, mix_slices, allocated, allocate, with_spare,
  total_weight, sort_desc, insert_desc, give_spare, add_one, repaired, take_from, first_max, ones,
  update_all,
}
use nim_vortex.Mix.Quotient.{divide, divide_from, round_even, fraction_lt, whole}
use nim_vortex.Mix.Repair.{EachDrives, repair-idle}
use nim_vortex.Mix.Split.{Splits, split_mix_lem}
use nim_vortex.Mix.Parse.{Configures, parse_mix-Configures, RunsWithin, mix_slices-RunsWithin}

split_mix_example : Splits 32 mix_default (split_mix 32 mix_default)
unfolding weighted contains equal
split_mix_example =
    split_mix_lem 32 mix_default (omega arith) (omega arith) (ground arith) (ground arith)

abbrev skewed : Bytes
skewed = codes "requests=1000"

mix_slices-RunsWithin_example : RunsWithin 8 (parse_mix skewed) (mix_slices skewed 8)
mix_slices-RunsWithin_example = mix_slices-RunsWithin skewed 8 (omega arith)

parse_mix-Configures_example : Configures (parse_mix skewed)
parse_mix-Configures_example = parse_mix-Configures skewed

abbrev shares : Dict ℕ
shares = (requests, 2) ∷ (ws, 5) ∷ (sse, 5) ∷ []

abbrev lopsided : Dict ℕ
lopsided = (requests, 5) ∷ (ws, 0) ∷ (sse, 0) ∷ []

mended :
    (total (repair (idle lopsided) lopsided) ≡ total lopsided)
    × (keys (repair (idle lopsided) lopsided) ≡ keys lopsided)
    × EachDrives (repair (idle lopsided) lopsided)
unfolding total
mended = repair-idle lopsided (ground arith) (omega arith)

abbrev tied : Dict ℕ
tied = (requests, 2) ∷ (ws, 5) ∷ (sse, 5) ∷ (streamupload, 1) ∷ (streamdownload, 1) ∷ []

-- Four workers at weights 2, 5 and 5 have the shares 2 / 3, 5 / 3 and 5 / 3, whose fractions are equal; but
-- as doubles that of 2 / 3 is the least, and the spare workers go to the two later slices.
later_tie :
    split_mix 6 tied
    ≡ ok ((requests, 1) ∷ (ws, 1) ∷ (sse, 2) ∷ (streamupload, 1) ∷ (streamdownload, 1) ∷ [])
unfolding split_mix allocated weighted contains equal allocate with_spare exact_shares total_weight
    total divide divide_from round_even floors whole sort_desc insert_desc fraction_lt give_spare
    add_one repaired idle repair take_from first_max update ones update_all
later_tie = refl
