-- ===== src/Stress/Main.antt =====
-- `main` of conformance/stress/client/stress_client.py: the verdict of a soak. How the workers end comes in
-- as an argument, and what they have counted by then as the counters.
pub mod Passes
use nim_vortex.Prelude.{
  ℕ, zero, suc, ◌+◌, ◌-◌, ◌*◌, ◌/◌, ◌%◌, ◌^◌, ◌≤◌, ◌<◌, min, max, ◌≡◌, ◌≢◌, ◌⊎◌, inl, inr, ◌↔◌,
  refl, sym, ap, ◌∙◌, Bool, true, false, not, ◌&&◌, ◌||◌, Option, none, some, List, [], ◌∷◌, ◌++◌,
  map, append-nil, append_assoc, length, get_elem?, get_or, take, drop, replicate, ltb, leb, ◌==◌,
  if◌then◌else◌, arith, ltb→lt, lt→ltb, leb→le, ==_iff, Bool-cases, Option-cases, length-append,
  length-take, length-drop, take-append-drop, take-append, drop-append, drop-nil, drop-drop,
  get_or-drop, get_or-append_left, drop-append_left, take-append_left, slice-append_left, drop_all,
}
use nim_vortex.Prelude.Bytes.{Bytes, codes, equal}
use nim_vortex.Prelude.Text.{contains}
use nim_vortex.Prelude.Dict.{Dict}
use nim_vortex.Stress.{Counters, count, ok_ops, Diagnosis, no_progress}

-- The keys of `WORKLOADS`.
abbrev pub workloads : List Bytes
workloads =
    codes "requests"
    ∷ codes "methods"
    ∷ codes "ws"
    ∷ codes "sse"
    ∷ codes "streamupload"
    ∷ codes "streamdownload"
    ∷ codes "mixed"
    ∷ []

-- How the gathered workers end under `wait_for`: all of them returned, a Fail, the timeout, another
-- Exception, an exception group with or without interrupts and with or without the rest, or an interrupt.
pub data Ended : Type 0 where
  finished : Ended
  failed : Ended
  stalled : Ended
  excepted : Ended
  grouped : Bool → Bool → Ended
  interrupted : Ended

-- The exit code with the workloads named as having completed nothing, or an exception that leaves `main`.
pub data Verdict : Type 0 where
  exits : ℕ → List (Bytes × Diagnosis) → Verdict
  raises : Verdict

-- `[t for t, _ in MIX_SLICES if ok_by[t] == 0]`
unfoldable pub dead : Dict ℕ → Counters → List Bytes
dead [] c = []
dead ((t, n) ∷ slices) c = if count t c.ok_by == 0 then t ∷ dead slices c else dead slices c

unfoldable pub diagnose : Bool → Bool → List Bytes → Counters → List (Bytes × Diagnosis)
diagnose mixed is_h3 [] c = []
diagnose mixed is_h3 (t ∷ ts) c = (t, no_progress mixed is_h3 t c) ∷ diagnose mixed is_h3 ts c

unfoldable pub mixed_verdict : Bool → List Bytes → Counters → Verdict
mixed_verdict is_h3 [] c = exits 0 []
mixed_verdict is_h3 (t ∷ ts) c = exits 1 (diagnose true is_h3 (t ∷ ts) c)

unfoldable pub single_verdict : Bool → Bytes → Counters → Verdict
single_verdict is_h3 workload c =
    if ok_ops c == 0
    then exits 1 ((workload, no_progress false is_h3 workload c) ∷ [])
    else exits 0 []

-- The end of `main`, once the workers have returned. The closing sample of `/stats` is only printed.
unfoldable pub progress_verdict : Bool → Bytes → Dict ℕ → Counters → Verdict
progress_verdict is_h3 workload slices c =
    if equal workload (codes "mixed")
    then mixed_verdict is_h3 (dead slices c) c
    else single_verdict is_h3 workload c

-- The `except` clauses.
unfoldable pub end_verdict : Bool → Bytes → Dict ℕ → Counters → Ended → Verdict
end_verdict is_h3 workload slices c finished = progress_verdict is_h3 workload slices c
end_verdict is_h3 workload slices c failed = exits 1 []
end_verdict is_h3 workload slices c stalled = exits 1 []
end_verdict is_h3 workload slices c excepted = exits 1 []
end_verdict is_h3 workload slices c (grouped interrupts rest) =
    if rest && not interrupts then exits 1 [] else raises
end_verdict is_h3 workload slices c interrupted = raises

-- `main()`, where `slices` is MIX_SLICES.
unfoldable pub main : Bool → Bytes → Dict ℕ → Counters → Ended → Verdict
main is_h3 workload slices c ended =
    if contains workload workloads then end_verdict is_h3 workload slices c ended else exits 2 []
