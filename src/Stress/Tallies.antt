-- ===== src/Stress/Tallies.antt =====
-- The successes of a run, counted by status and, in the mixed run, by workload.
use nim_vortex.Prelude.{
  ℕ, ◌+◌, ◌≡◌, inl, inr, true, ◌&&◌, List, [], ◌∷◌, ltb, leb, ◌==◌, if◌then◌else◌, arith, ==_iff,
  Bool-cases,
}
use nim_vortex.Prelude.Bytes.{Bytes, equal}
use nim_vortex.Prelude.Dict.{Dict, equal_iff}
use nim_vortex.Stress.{Counters, add, count, add_status, is_ok, bump, ok_sum, ok_ops}

unfoldable pub sum_by : Dict ℕ → ℕ
sum_by [] = 0
sum_by ((k, n) ∷ d) = n + sum_by d

sum_by-add : (k : Bytes) (n : ℕ) (d : Dict ℕ) → sum_by (add k n d) ≡ sum_by d + n
unfolding sum_by add
sum_by-add k n [] = omega arith
sum_by-add k n ((j, m) ∷ d) = ground (arith, sum_by-add k n d)

pub count-add :
    (i k : Bytes) (n : ℕ) (d : Dict ℕ)
    → count i (add k n d) ≡ (if equal i k then count i d + n else count i d)
unfolding count add
count-add i k n [] = ground arith
count-add i k n ((j, m) ∷ d) =
    ground (arith, count-add i k n d, equal_iff i j, equal_iff k j, equal_iff i k)

pub ok_sum-add_status :
    (c n : ℕ) (cs : List (ℕ × ℕ))
    → ok_sum (add_status c n cs) ≡ ok_sum cs + (if is_ok c then n else 0)
unfolding ok_sum add_status
ok_sum-add_status c n [] = ground arith
ok_sum-add_status c n ((d, m) ∷ cs) = elim (Bool-cases (c == d)) [
  | inl e ↦ rw (e, (==_iff c d).0 e) (ground arith)
  | inr e ↦ rw e (omega (arith, ok_sum-add_status c n cs))
]

bump-ok_ops :
    (tag : Bytes) (status n : ℕ) (c : Counters)
    → sum_by c.ok_by ≡ ok_ops c
    → sum_by (bump true tag status n c).ok_by ≡ ok_ops (bump true tag status n c)
unfolding bump ok_ops
bump-ok_ops tag status n c h =
    ground (arith, sum_by-add tag n c.ok_by, ok_sum-add_status status n c.statuses)

-- The calls of `bump`, each with its workload, its status and its count.
pub bump_all : List (Bytes × ℕ × ℕ) → Counters → Counters
bump_all [] c = c
bump_all ((tag, status, n) ∷ bs) c = bump_all bs (bump true tag status n c)

-- The successes among `bs` that are of the workload `i`.
unfoldable pub credited : Bytes → List (Bytes × ℕ × ℕ) → ℕ
credited i [] = 0
credited i ((tag, status, n) ∷ bs) =
    (if equal i tag && (leb 200 status && ltb status 300) then n else 0) + credited i bs

bump-ok_by :
    (i tag : Bytes) (status n : ℕ) (c : Counters)
    → count i (bump true tag status n c).ok_by
      ≡ count i c.ok_by + (if equal i tag && (leb 200 status && ltb status 300) then n else 0)
unfolding bump is_ok
bump-ok_by i tag status n c = elim (Bool-cases (leb 200 status && ltb status 300)) [
  | inl e ↦ rw e (ground (arith, count-add i tag n c.ok_by))
  | inr e ↦ rw e (ground arith)
]

count-bump_all :
    (i : Bytes) (bs : List (Bytes × ℕ × ℕ)) (c : Counters)
    → count i (bump_all bs c).ok_by ≡ count i c.ok_by + credited i bs
unfolding bump_all credited
count-bump_all i [] c = omega arith
count-bump_all i ((tag, status, n) ∷ bs) c =
    omega (arith, count-bump_all i bs (bump true tag status n c), bump-ok_by i tag status n c)

ok_sum-bump_all :
    (bs : List (Bytes × ℕ × ℕ)) (c : Counters)
    → sum_by c.ok_by ≡ ok_ops c
    → sum_by (bump_all bs c).ok_by ≡ ok_ops (bump_all bs c)
unfolding bump_all
ok_sum-bump_all [] c h = h
ok_sum-bump_all ((tag, status, n) ∷ bs) c h =
    ok_sum-bump_all bs (bump true tag status n c) (bump-ok_ops tag status n c h)

-- In the mixed run, however the completions interleave: each workload is credited with exactly its own
-- completions with a 2xx status, and where the successes of the workloads add up to `ok_ops()` they still do,
-- so that none is lost or counted for another.
pub bump_all-ok_ops :
    (bs : List (Bytes × ℕ × ℕ)) (c : Counters)
    → sum_by c.ok_by ≡ ok_ops c
    → (sum_by (bump_all bs c).ok_by ≡ ok_ops (bump_all bs c))
      × ((i : Bytes) → count i (bump_all bs c).ok_by ≡ count i c.ok_by + credited i bs)
bump_all-ok_ops bs c h = (ok_sum-bump_all bs c h, λ i. count-bump_all i bs c)
