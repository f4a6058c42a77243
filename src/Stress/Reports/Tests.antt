-- ===== src/Stress/Reports/Tests.antt =====
-- Report lines.
use nim_vortex.Prelude.{ℕ, ◌+◌, ◌≡◌, refl, true, some, List, [], ◌∷◌, arith}
use nim_vortex.Prelude.Bytes.{Bytes, codes, equal}
use nim_vortex.Prelude.Text.{show, show_onto, contains}
use nim_vortex.Prelude.Dict.{Dict}
use nim_vortex.Stress.{count}
use nim_vortex.Stress.Reports.{
  insert_code, sorted_codes, join_with, code_parts, or_zero, fmt_codes, tenths, fmt_mb, mix_seg,
  mix_deltas, set_count, rate_text, delta_text, seg_texts, bar, mix_segments,
}
use nim_vortex.Stress.Reports.Deltas.{grown_over, last_count, Rises, grown_over-last_count}

abbrev slices : List Bytes
slices = codes "requests" ∷ codes "streamupload" ∷ []

abbrev first : Dict ℕ
first = (codes "requests", 300) ∷ []

abbrev second : Dict ℕ
second = (codes "streamupload", 2) ∷ (codes "requests", 340) ∷ []

requests_Rise : Rises (codes "requests") (count (codes "requests") []) (first ∷ second ∷ [])
unfolding count equal
requests_Rise = (omega arith, (omega arith, tt))

requests_in : contains (codes "requests") slices ≡ true
unfolding contains equal
requests_in = refl

grown_over-last_count_example :
    grown_over (codes "requests") slices (first ∷ second ∷ []) [] + count (codes "requests") []
    ≡ last_count (codes "requests") (count (codes "requests") []) (first ∷ second ∷ [])
grown_over-last_count_example =
    grown_over-last_count (codes "requests") slices (first ∷ second ∷ []) [] requests_in
      requests_Rise

codes_in_order : fmt_codes ((503, 1) ∷ (200, 12) ∷ []) ≡ codes "200x12 503x1"
unfolding fmt_codes sorted_codes insert_code code_parts or_zero join_with show show_onto
codes_in_order = refl

-- Half a tenth goes to the even one, and a small body is still none.
small_bodies :
    (fmt_mb 524288 ≡ codes "0.5MB")
    × (fmt_mb 52428 ≡ codes "0.0MB")
    × (fmt_mb 20971520 ≡ codes "20MB")
unfolding fmt_mb tenths show show_onto
small_bodies = (refl, refl, refl)

second_line :
    (mix_segments
      (λ d dt. show d)
      1048576
      30000
      slices
      second
      (record { last = first; stamp = 29000 })).0
    ≡ some (codes "req 340 (+40/s) | up 2 xfers 2.0MB (+2)")
unfolding mix_segments mix_deltas set_count bar seg_texts mix_seg delta_text rate_text join_with
    fmt_mb tenths show show_onto contains equal count
second_line = refl
