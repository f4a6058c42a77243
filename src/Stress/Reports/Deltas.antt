-- ===== src/Stress/Reports/Deltas.antt =====
-- What the report lines of a mixed run say adds up.
use nim_vortex.Prelude.{
  ℕ, ◌+◌, ◌≤◌, ◌≡◌, sym, ap, ◌∙◌, inl, inr, true, List, [], ◌∷◌, if◌then◌else◌, arith, Bool-cases,
}
use nim_vortex.Prelude.Bytes.{Bytes, equal, equal_sound}
use nim_vortex.Prelude.Text.{contains}
use nim_vortex.Prelude.Dict.{Dict, equal_iff}
use mathlib.Core.Path.{subst}
use nim_vortex.Stress.{count}
use nim_vortex.Stress.Reports.{set_count, mix_deltas}

-- What a line says that the slice `k` has grown by, with a slice that is named twice counted twice.
unfoldable pub grown : Bytes → List (Bytes × ℕ × ℕ) → ℕ
grown k [] = 0
grown k ((t, n, d) ∷ segs) = (if equal k t then d else 0) + grown k segs

-- The growth over successive lines, one for each state of `ok_by`.
unfoldable pub grown_over : Bytes → List Bytes → List (Dict ℕ) → Dict ℕ → ℕ
grown_over k ts [] last = 0
grown_over k ts (ok_by ∷ rest) last =
    let (segs, last') = mix_deltas ts ok_by last in grown k segs + grown_over k ts rest last'

count-set_count :
    (k t : Bytes) (n : ℕ) (d : Dict ℕ)
    → count k (set_count t n d) ≡ (if equal k t then n else count k d)
unfolding count set_count
count-set_count k t n [] = ground arith
count-set_count k t n ((j, m) ∷ d) =
    ground (arith, count-set_count k t n d, equal_iff k j, equal_iff t j, equal_iff k t)

-- A line: a slice has grown by what its mark has moved, and the mark of a slice in the line is its count.
record Told (k : Bytes) (ts : List Bytes) (ok_by last last' : Dict ℕ) (segs : List (Bytes × ℕ × ℕ))
    : Type 0 where
  moved : grown k segs + count k last ≡ count k last'
  within : count k last' ≤ count k ok_by
  marked : contains k ts ≡ true → count k last' ≡ count k ok_by

mix_deltas-Told :
    (k : Bytes) (ts : List Bytes) (ok_by last : Dict ℕ)
    → count k last ≤ count k ok_by
    → Told k ts ok_by last (mix_deltas ts ok_by last).1 (mix_deltas ts ok_by last).0
unfolding mix_deltas grown contains
mix_deltas-Told k [] ok_by last le = record {
  moved = omega arith;
  within = le;
  marked = λ e. ground arith;
}
mix_deltas-Told k (t ∷ ts) ok_by last le =
    let n = count t ok_by in
    let next = set_count t n last in
    let set : count k next ≡ (if equal k t then n else count k last) = count-set_count k t n last in
    elim (Bool-cases (equal k t)) [
      | inl e ↦
          let same : k ≡ t = equal_sound k t e in
          let here : count k next ≡ count k ok_by =
            set
            ∙ (ap (λ b. if b then n else count k last) e ∙ ap (λ x. count x ok_by) (sym same)) in
          let now_ : count k last ≡ count t last = ap (λ x. count x last) same in
          let whole : count k ok_by ≡ n = ap (λ x. count x ok_by) same in
          let h = mix_deltas-Told k ts ok_by next (omega arith) in
          let moved = h.moved in
          let within = h.within in
          record { moved = rw e (omega arith); within = h.within; marked = λ c. omega arith }
      | inr e ↦
          let here : count k next ≡ count k last =
            set ∙ ap (λ b. if b then n else count k last) e in
          let h = mix_deltas-Told k ts ok_by next (omega arith) in
          let moved = h.moved in
          record {
            moved = rw e (omega arith);
            within = h.within;
            marked = λ c. h.marked (sym (ap (λ b. if b then true else contains k ts) e) ∙ c);
          }
    ]

-- The counts of a slice over the lines never go down, from `m` on.
abbrev pub Rises : Bytes → ℕ → List (Dict ℕ) → Type 0
Rises k m [] = Unit
Rises k m (ok_by ∷ rest) = (m ≤ count k ok_by) × Rises k (count k ok_by) rest

-- The count at the last line, and `m` where there is none.
unfoldable pub last_count : Bytes → ℕ → List (Dict ℕ) → ℕ
last_count k m [] = m
last_count k m (ok_by ∷ rest) = last_count k (count k ok_by) rest

-- Over the report lines of a mixed run, what the lines say that a slice has grown by adds up, with the mark
-- that it had before, to its count at the last line. The slice is one of those in the lines, and its count
-- never goes down.
pub grown_over-last_count :
    (k : Bytes) (ts : List Bytes) (lines : List (Dict ℕ)) (last : Dict ℕ)
    → contains k ts ≡ true
    → Rises k (count k last) lines
    → grown_over k ts lines last + count k last ≡ last_count k (count k last) lines
unfolding grown_over last_count
grown_over-last_count k ts [] last c h = omega arith
grown_over-last_count k ts (ok_by ∷ rest) last c (le, h) =
    let last' = (mix_deltas ts ok_by last).1 in
    let t = mix_deltas-Told k ts ok_by last le in
    let moved = t.moved in
    let same : count k last' ≡ count k ok_by = t.marked c in
    let next = grown_over-last_count k ts rest last' c (subst (λ m. Rises k m rest) (sym same) h) in
    let next' : grown_over k ts rest last' + count k last' ≡ last_count k (count k ok_by) rest =
      next ∙ ap (λ m. last_count k m rest) same in
    omega arith
