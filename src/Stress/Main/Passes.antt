-- ===== src/Stress/Main/Passes.antt =====
-- When a soak passes.
use nim_vortex.Prelude.{
  ℕ, zero, suc, ◌<◌, ◌≡◌, ◌≢◌, ◌⊎◌, inl, inr, ◌↔◌, refl, sym, ap, ◌∙◌, Bool, true, false, not, ◌&&◌,
  List, [], ◌∷◌, ◌==◌, if◌then◌else◌, arith, Bool-cases,
}
use nim_vortex.Prelude.Bytes.{Bytes, codes, equal}
use nim_vortex.Prelude.Text.{contains}
use nim_vortex.Prelude.Dict.{Dict}
use nim_vortex.Stress.{Counters, count, ok_ops}
use nim_vortex.Stress.Main.{
  workloads, Ended, finished, failed, stalled, excepted, grouped, interrupted, Verdict, exits,
  raises, dead, mixed_verdict, single_verdict, progress_verdict, end_verdict, main,
}

-- Each slice has completed something.
abbrev pub EachCounts : Dict ℕ → Counters → Type 0
EachCounts [] c = Unit
EachCounts ((t, n) ∷ slices) c = (0 < count t c.ok_by) × EachCounts slices c

-- What a run has to have completed: in the mixed cell something of each slice, else something.
abbrev pub Progresses : Bytes → Dict ℕ → Counters → Type 0
Progresses workload slices c =
    ((equal workload (codes "mixed") ≡ true) × EachCounts slices c)
    ⊎ ((equal workload (codes "mixed") ≡ false) × (0 < ok_ops c))

-- Exit code 0.
pub passes : Verdict → Bool
passes (exits zero fails) = true
passes (exits (suc n) fails) = false
passes raises = false

dead-EachCounts : (slices : Dict ℕ) (c : Counters) → dead slices c ≡ [] → EachCounts slices c
unfolding dead
dead-EachCounts [] c h = tt
dead-EachCounts ((t, n) ∷ slices) c h = ground (arith, dead-EachCounts slices c)

EachCounts-dead : (slices : Dict ℕ) (c : Counters) → EachCounts slices c → dead slices c ≡ []
unfolding dead
EachCounts-dead [] c h = refl
EachCounts-dead ((t, n) ∷ slices) c h = ground (arith, EachCounts-dead slices c)

mixed_verdict-passes :
    (is_h3 : Bool) (ts : List Bytes) (c : Counters)
    → passes (mixed_verdict is_h3 ts c) ≡ true
    → ts ≡ []
unfolding passes mixed_verdict
mixed_verdict-passes is_h3 [] c h = refl
mixed_verdict-passes is_h3 (t ∷ ts) c h = cc

single_verdict-passes :
    (is_h3 : Bool) (workload : Bytes) (c : Counters)
    → (passes (single_verdict is_h3 workload c) ≡ true) ↔ (0 < ok_ops c)
unfolding passes single_verdict
single_verdict-passes is_h3 workload c = elim (Bool-cases (ok_ops c == 0)) [
  | inl e ↦ rw e ((λ h. cc), (λ h. ground arith))
  | inr e ↦ rw e ((λ h. ground arith), (λ h. refl))
]

true-false : true ≢ false
true-false h = cc

mixed_verdict-nil :
    (is_h3 : Bool) (ts : List Bytes) (c : Counters)
    → ts ≡ []
    → passes (mixed_verdict is_h3 ts c) ≡ true
unfolding passes mixed_verdict
mixed_verdict-nil is_h3 ts c h = rw h refl

-- A verdict that depends on a test.
if-passes :
    (b : Bool) (x y : Verdict) (P Q : Type 0)
    → (passes x ≡ true) ↔ P
    → (passes y ≡ true) ↔ Q
    → (passes (if b then x else y) ≡ true) ↔ (((b ≡ true) × P) ⊎ ((b ≡ false) × Q))
if-passes true x y P Q h k = (
  (λ p. inl (refl, h.0 p)),
  (λ r. elim r [ inl (e, p) ↦ h.1 p | inr (e, q) ↦ absurd (true-false e) ]),
)
if-passes false x y P Q h k = (
  (λ p. inr (refl, k.0 p)),
  (λ r. elim r [ inl (e, p) ↦ absurd (true-false (sym e)) | inr (e, q) ↦ k.1 q ]),
)

progress_verdict-passes :
    (is_h3 : Bool) (workload : Bytes) (slices : Dict ℕ) (c : Counters)
    → (passes (progress_verdict is_h3 workload slices c) ≡ true) ↔ Progresses workload slices c
unfolding progress_verdict
progress_verdict-passes is_h3 workload slices c =
    if-passes (equal workload (codes "mixed")) (mixed_verdict is_h3 (dead slices c) c)
      (single_verdict is_h3 workload c) (EachCounts slices c) (0 < ok_ops c)
      (
        (λ h. dead-EachCounts slices c (mixed_verdict-passes is_h3 (dead slices c) c h)),
        (λ k. mixed_verdict-nil is_h3 (dead slices c) c (EachCounts-dead slices c k)),
      )
      (single_verdict-passes is_h3 workload c)

if-raises : (b : Bool) → passes (if b then exits 1 [] else raises) ≡ false
unfolding passes
if-raises true = refl
if-raises false = refl

never {ℓ} : {A : Type ℓ} (b : Bool) → b ≡ false → ¬ A → (b ≡ true) ↔ A
never b e n = ((λ h. absurd (true-false (sym h ∙ e))), (λ a. absurd (n a)))

is_finished : Ended → Bool
is_finished finished = true
is_finished failed = false
is_finished stalled = false
is_finished excepted = false
is_finished (grouped i r) = false
is_finished interrupted = false

unfinished : (ended : Ended) (P : Type 0) → is_finished ended ≡ false → ¬ ((ended ≡ finished) × P)
unfolding is_finished
unfinished ended P f (e, p) = true-false (sym (ap is_finished e) ∙ f)

end_verdict-passes :
    (is_h3 : Bool) (workload : Bytes) (slices : Dict ℕ) (c : Counters) (ended : Ended)
    → (passes (end_verdict is_h3 workload slices c ended) ≡ true)
      ↔ ((ended ≡ finished) × Progresses workload slices c)
unfolding end_verdict passes is_finished
end_verdict-passes is_h3 workload slices c finished =
    let p = progress_verdict-passes is_h3 workload slices c in
    ((λ h. (refl, p.0 h)), (λ k. p.1 k.1))
end_verdict-passes is_h3 workload slices c failed = never false refl (unfinished failed _ refl)
end_verdict-passes is_h3 workload slices c stalled = never false refl (unfinished stalled _ refl)
end_verdict-passes is_h3 workload slices c excepted = never false refl (unfinished excepted _ refl)
end_verdict-passes is_h3 workload slices c (grouped i r) =
    never _ (if-raises (r && not i)) (unfinished (grouped i r) _ refl)
end_verdict-passes is_h3 workload slices c interrupted =
    never false refl (unfinished interrupted _ refl)

if-main :
    (b : Bool) (x : Verdict) (P Q : Type 0)
    → (passes x ≡ true) ↔ (P × Q)
    → (passes (if b then x else exits 2 []) ≡ true) ↔ ((b ≡ true) × P × Q)
unfolding passes
if-main true x P Q h = ((λ p. (refl, (h.0 p).0, (h.0 p).1)), (λ k. h.1 (k.1, k.2)))
if-main false x P Q h = never false refl (λ k. true-false (sym k.0))

-- A soak exits with 0 exactly when it names a workload of the catalog, its workers all returned, and what it has
-- to have completed is there: in the mixed cell something of each slice, so that none hides behind the
-- others, and in another cell something at all.
pub main-passes :
    (is_h3 : Bool) (workload : Bytes) (slices : Dict ℕ) (c : Counters) (ended : Ended)
    → (passes (main is_h3 workload slices c ended) ≡ true)
      ↔ ((contains workload workloads ≡ true) × (ended ≡ finished) × Progresses workload slices c)
unfolding main
main-passes is_h3 workload slices c ended =
    if-main (contains workload workloads) (end_verdict is_h3 workload slices c ended) _ _
      (end_verdict-passes is_h3 workload slices c ended)
