-- ===== src/Stress/Reports.antt =====
-- The report lines of conformance/stress/client/stress_client.py. Times are whole milliseconds, and the
-- texts of rates, which are rounded quotients of floats, come from an argument.
pub mod Deltas
pub mod Tests
use nim_vortex.Prelude.{
  ℕ, suc, ◌+◌, ◌-◌, ◌*◌, ◌/◌, ◌%◌, Bool, true, false, ◌&&◌, ◌||◌, Option, none, some, List, [], ◌∷◌,
  ◌++◌, ltb, leb, ◌==◌, if◌then◌else◌,
}
use nim_vortex.Prelude.Bytes.{Bytes, codes, equal}
use nim_vortex.Prelude.Text.{show, contains}
use nim_vortex.Prelude.Dict.{Dict}
use nim_vortex.Stress.{count}

-- `sorted(codes.items())`
unfoldable pub insert_code : ℕ × ℕ → List (ℕ × ℕ) → List (ℕ × ℕ)
insert_code x [] = x ∷ []
insert_code (c, n) ((d, m) ∷ cs) =
    if leb c d then (c, n) ∷ (d, m) ∷ cs else (d, m) ∷ insert_code (c, n) cs

unfoldable pub sorted_codes : List (ℕ × ℕ) → List (ℕ × ℕ)
sorted_codes [] = []
sorted_codes (x ∷ cs) = insert_code x (sorted_codes cs)

-- `sep.join(xs)`
unfoldable pub join_with : Bytes → List Bytes → Bytes
join_with sep [] = []
join_with sep (x ∷ []) = x
join_with sep (x ∷ y ∷ xs) = x ++ (sep ++ join_with sep (y ∷ xs))

unfoldable pub code_parts : List (ℕ × ℕ) → List Bytes
code_parts [] = []
code_parts ((c, n) ∷ cs) = (show c ++ b'x' ∷ show n) ∷ code_parts cs

unfoldable pub or_zero : List Bytes → Bytes
or_zero [] = codes "0"
or_zero (p ∷ ps) = join_with (codes " ") (p ∷ ps)

unfoldable pub fmt_codes : List (ℕ × ℕ) → Bytes
fmt_codes cs = or_zero (code_parts (sorted_codes cs))

abbrev pub mib : ℕ
mib = 1048576

-- `f"{b / MB:.1f}"`: tenths of an MB, a half to the even one.
unfoldable pub tenths : ℕ → ℕ
tenths b =
    let q = 10 * b / mib in
    let r = 10 * b % mib in if ltb mib (2 * r) || (2 * r == mib && q % 2 == 1) then suc q else q

unfoldable pub fmt_mb : ℕ → Bytes
fmt_mb b =
    if ltb b (10 * mib)
    then show (tenths b / 10) ++ b'.' ∷ (show (tenths b % 10) ++ codes "MB")
    else show (b / mib) ++ codes "MB"

-- `_MIX_SEG[tag](n)`, where none is the KeyError.
unfoldable pub mix_seg : ℕ → Bytes → ℕ → Option Bytes
mix_seg stream tag n =
    if equal tag (codes "requests")
    then some (codes "req " ++ show n)
    else if equal tag (codes "ws")
    then some (codes "ws " ++ (show n ++ codes " msgs"))
    else if equal tag (codes "sse")
    then some (codes "sse " ++ (show n ++ codes " ev"))
    else if equal tag (codes "streamupload")
    then some (codes "up " ++ (show n ++ (codes " xfers " ++ fmt_mb (n * stream))))
    else if equal tag (codes "streamdownload")
    then some (codes "down " ++ (show n ++ (codes " xfers " ++ fmt_mb (n * stream))))
    else none

-- `_MIX_RATE`
abbrev pub mix_rate : List Bytes
mix_rate = codes "requests" ∷ codes "ws" ∷ codes "sse" ∷ []

-- `_mix_last` and `_mix_at[0]`
pub record Marks : Type 0 where
  pub last : Dict ℕ
  pub stamp : ℕ

-- `_mix_last[t] = n`
unfoldable pub set_count : Bytes → ℕ → Dict ℕ → Dict ℕ
set_count k n [] = (k, n) ∷ []
set_count k n ((j, m) ∷ d) = if equal k j then (j, n) ∷ d else (j, m) ∷ set_count k n d

-- The loop of `mix_segments(now)`: for each slice its count and what that has grown by, and `_mix_last`.
unfoldable pub mix_deltas : List Bytes → Dict ℕ → Dict ℕ → List (Bytes × ℕ × ℕ) × Dict ℕ
mix_deltas [] ok_by last = ([], last)
mix_deltas (t ∷ ts) ok_by last =
    let n = count t ok_by in
    let (segs, last') = mix_deltas ts ok_by (set_count t n last) in
    ((t, n, n - count t last) ∷ segs, last')

-- `per_second d dt` is the text of `d / dt`, with no digit behind the point.
module _ (per_second : ℕ → ℕ → Bytes) (stream : ℕ) where
  unfoldable pub rate_text : ℕ → ℕ → Bytes
  rate_text dt d = if ltb 0 dt then per_second d dt else codes "0"

  unfoldable pub delta_text : ℕ → Bytes → ℕ → Bytes
  delta_text dt t d =
      if contains t mix_rate
      then codes " (+" ++ (rate_text dt d ++ codes "/s)")
      else codes " (+" ++ (show d ++ codes ")")

  unfoldable pub seg_texts : ℕ → List (Bytes × ℕ × ℕ) → Option (List Bytes)
  seg_texts dt [] = some []
  seg_texts dt ((t, n, d) ∷ segs) = elim (mix_seg stream t n) [
    | none ↦ none
    | some seg ↦ elim (seg_texts dt segs) [
      | none ↦ none
      | some rest ↦ some ((seg ++ delta_text dt t d) ∷ rest)
    ]
  ]

  unfoldable pub bar : Option (List Bytes) → Option Bytes
  bar none = none
  bar (some segs) = some (join_with (codes " | ") segs)

  -- `mix_segments(now)` for a report line, with the marks that it leaves.
  unfoldable pub mix_segments : ℕ → List Bytes → Dict ℕ → Marks → Option Bytes × Marks
  mix_segments now tags ok_by m =
      let (segs, last') = mix_deltas tags ok_by m.last in
      (bar (seg_texts (now - m.stamp) segs), record { last = last'; stamp = now })

  -- `fmt_rate(now)`, with the time and the count of the line before.
  unfoldable pub fmt_rate : Bytes → ℕ → ℕ → ℕ × ℕ → Bytes × (ℕ × ℕ)
  fmt_rate unit now ops (at, seen) = (
    codes " | " ++ (rate_text (now - at) (ops - seen) ++ (b' ' ∷ unit ++ codes "/s")),
    (now, ops),
  )

-- A number of bytes, or of descriptors, that the sample may not have.
unfoldable pub mb_text : Option ℕ → Bytes
mb_text none = codes "n/a"
mb_text (some b) = show (b / mib) ++ codes "MB"

unfoldable pub fds_text : Option ℕ → Bytes
fds_text none = codes "n/a"
fds_text (some n) = show n

-- What `report_line(prefix, rss, heap, fds)` prints, with its segment and the seconds since the start.
unfoldable pub report_line :
    Bytes
    → Bytes
    → Bytes
    → Bytes
    → List (ℕ × ℕ)
    → Bytes
    → Option ℕ
    → Option ℕ
    → Option ℕ
    → ℕ
    → Bytes
report_line workload proto server prefix statuses seg rss heap fds seconds =
    b'[' ∷ workload
    ++ (b' ' ∷ proto
        ++ (b' ' ∷ server
            ++ (codes "] "
                ++ (prefix
                    ++ (fmt_codes statuses
                        ++ (seg
                            ++ (codes " | RSS "
                                ++ (mb_text rss
                                    ++ (codes " | heap "
                                        ++ (mb_text heap
                                            ++ (codes " | fds "
                                                ++ (fds_text fds
                                                    ++ (codes " | t="
                                                        ++ (show seconds ++ codes "s"))))))))))))))
