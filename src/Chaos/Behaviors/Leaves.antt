-- ===== src/Chaos/Behaviors/Leaves.antt =====
-- Connections: how many a run opens, how many of these it ends, and how many it leaves open.
use nim_vortex.Prelude.{ℕ, suc, ◌+◌, ◌≤◌, ◌≡◌, refl, Bool, true, false, List, [], ◌∷◌, arith}
use nim_vortex.Chaos.Behaviors.{
  Deed, Act, opens, ends, leaves, does, Reply, World, Ended, ok, fails, cancelled, M, then_run,
  ◌>>=◌, pure, take_reply, call, act, now, wait, take_roll, roll, between, chance, doze,
}

unfoldable pub opened_in : List Act → ℕ
opened_in [] = 0
opened_in (opens door ∷ t) = suc (opened_in t)
opened_in (ends ∷ t) = opened_in t
opened_in (leaves ∷ t) = opened_in t
opened_in (does d ∷ t) = opened_in t

unfoldable pub ended_in : List Act → ℕ
ended_in [] = 0
ended_in (opens door ∷ t) = ended_in t
ended_in (ends ∷ t) = suc (ended_in t)
ended_in (leaves ∷ t) = ended_in t
ended_in (does d ∷ t) = ended_in t

unfoldable pub left_in : List Act → ℕ
left_in [] = 0
left_in (opens door ∷ t) = left_in t
left_in (ends ∷ t) = left_in t
left_in (leaves ∷ t) = suc (left_in t)
left_in (does d ∷ t) = left_in t

-- Between two states, as many connections are opened as `connects[0]` counts, and these and `e` more are
-- ended or left open for good, the latter `k` at most.
pub record Kept (e k : ℕ) (v w : World) : Type 0 where
  pub made : ℕ
  pub left : ℕ
  pub few : left ≤ k
  pub counted : w.connects ≡ v.connects + made
  pub opening : opened_in w.trace ≡ opened_in v.trace + made
  pub ending : ended_in w.trace + left ≡ ended_in v.trace + (made + e)
  pub leaving : left_in w.trace ≡ left_in v.trace + left

pub Kept-refl : (k : ℕ) (w : World) → Kept 0 k w w
Kept-refl k w = record {
  made = 0;
  left = 0;
  few = omega arith;
  counted = omega arith;
  opening = omega arith;
  ending = omega arith;
  leaving = omega arith;
}

pub Kept-trans :
    (e k f j g l : ℕ) (u v w : World)
    → g ≡ e + f
    → k + j ≤ l
    → Kept e k u v
    → Kept f j v w
    → Kept g l u w
Kept-trans e k f j g l u v w same le p q =
    let (a, b) : (p.left ≤ k) × (q.left ≤ j) = (p.few, q.few) in
    let c : v.connects ≡ u.connects + p.made = p.counted in
    let d : w.connects ≡ v.connects + q.made = q.counted in
    let x : opened_in v.trace ≡ opened_in u.trace + p.made = p.opening in
    let y : opened_in w.trace ≡ opened_in v.trace + q.made = q.opening in
    let z : ended_in v.trace + p.left ≡ ended_in u.trace + (p.made + e) = p.ending in
    let m : ended_in w.trace + q.left ≡ ended_in v.trace + (q.made + f) = q.ending in
    let n : left_in v.trace ≡ left_in u.trace + p.left = p.leaving in
    let o : left_in w.trace ≡ left_in v.trace + q.left = q.leaving in
    record {
      made = p.made + q.made;
      left = p.left + q.left;
      few = omega arith;
      counted = omega arith;
      opening = omega arith;
      ending = omega arith;
      leaving = omega arith;
    }

pub Kept-then : (e k : ℕ) (u v w : World) → Kept 0 0 u v → Kept e k v w → Kept e k u w
Kept-then e k u v w p q = Kept-trans 0 0 e k e k u v w (omega arith) (omega arith) p q

pub Kept-and : (e k : ℕ) (u v w : World) → Kept e k u v → Kept 0 0 v w → Kept e k u w
Kept-and e k u v w p q = Kept-trans e k 0 0 e k u v w (omega arith) (omega arith) p q

pub Kept-weaken : (e k j : ℕ) (v w : World) → k ≤ j → Kept e k v w → Kept e j v w
Kept-weaken e k j v w le p =
    let a = p.few in
    record {
      made = p.made;
      left = p.left;
      few = omega arith;
      counted = p.counted;
      opening = p.opening;
      ending = p.ending;
      leaving = p.leaving;
    }

-- Whatever the environment does, and however the run ends.
pub record Keeps {A : Type 0} (e k : ℕ) (m : M A) : Type 0 where
  pub keeps : (w : World) → Kept e k w (m w).0

then_run-Kept :
    {A B : Type 0}
    → (k j l : ℕ) (v : World) (r : World × Ended A) (f : A → M B) → k + j ≤ l
    → Kept 0 k v r.0
    → ((a : A) → Keeps 0 j (f a))
    → Kept 0 l v (then_run r f).0
unfolding then_run
then_run-Kept k j l v (w, ok a) f le p q =
    Kept-trans 0 k 0 j 0 l v w (f a w).0 (omega arith) le p ((q a).keeps w)
then_run-Kept k j l v (w, fails) f le p q = Kept-weaken 0 k l v w (omega arith) p
then_run-Kept k j l v (w, cancelled) f le p q = Kept-weaken 0 k l v w (omega arith) p

pub chain-Keeps :
    {A B : Type 0}
    → {m : M A} {f : A → M B} (k j l : ℕ) → k + j ≤ l
    → Keeps 0 k m
    → ((a : A) → Keeps 0 j (f a))
    → Keeps 0 l (m >>= f)
unfolding ◌>>=◌
chain-Keeps {A} {B} {m} {f} k j l le p q = record {
  keeps = λ w. then_run-Kept k j l w (m w) f le (p.keeps w) q;
}

pub bind-Keeps :
    {A B : Type 0}
    → {k : ℕ} {m : M A} {f : A → M B} → Keeps 0 0 m
    → ((a : A) → Keeps 0 k (f a))
    → Keeps 0 k (m >>= f)
bind-Keeps {A} {B} {k} p q = chain-Keeps 0 k k (omega arith) p q

pub pure-Keeps : {A : Type 0} {k : ℕ} (a : A) → Keeps 0 k (pure a)
unfolding pure
pure-Keeps {A} {k} a = record { keeps = λ w. Kept-refl k w }

-- A step that opens and ends nothing.
pub quiet :
    (v w : World)
    → w.connects ≡ v.connects
    → opened_in w.trace ≡ opened_in v.trace
    → ended_in w.trace ≡ ended_in v.trace
    → left_in w.trace ≡ left_in v.trace
    → Kept 0 0 v w
quiet v w a b c d = record {
  made = 0;
  left = 0;
  few = omega arith;
  counted = omega arith;
  opening = omega arith;
  ending = omega arith;
  leaving = omega arith;
}

pub take_reply-Kept : (rs : List Reply) (w : World) → Kept 0 0 w (take_reply rs w).0
unfolding take_reply
take_reply-Kept [] w = Kept-refl 0 w
take_reply-Kept (r ∷ rs) w = quiet w _ refl refl refl refl

pub call-Keeps : (d : Deed) → Keeps 0 0 (call d)
unfolding call opened_in ended_in left_in
call-Keeps d = record {
  keeps = λ w.
      let w' : World = record w { trace = does d ∷ w.trace } in
      Kept-then 0 0 w w' (call d w).0 (quiet w w' refl refl refl refl)
        (take_reply-Kept w.replies w');
}

pub act-Keeps : (d : Deed) → Keeps 0 0 (act d)
unfolding act
act-Keeps d = bind-Keeps (call-Keeps d) (λ r. pure-Keeps tt)

pub now-Keeps : Keeps 0 0 now
unfolding now
now-Keeps = record { keeps = λ w. Kept-refl 0 w }

pub wait-Keeps : (d : ℕ) → Keeps 0 0 (wait d)
unfolding wait
wait-Keeps d = bind-Keeps (act-Keeps _) (λ u. record { keeps = λ w. quiet w _ refl refl refl refl })

take_roll-Kept : (ns : List ℕ) (w : World) → Kept 0 0 w (take_roll ns w).0
unfolding take_roll
take_roll-Kept [] w = Kept-refl 0 w
take_roll-Kept (n ∷ ns) w = quiet w _ refl refl refl refl

pub roll-Keeps : Keeps 0 0 roll
unfolding roll
roll-Keeps = record { keeps = λ w. take_roll-Kept w.rolls w }

pub between-Keeps : (lo hi : ℕ) → Keeps 0 0 (between lo hi)
unfolding between
between-Keeps lo hi = bind-Keeps roll-Keeps (λ n. pure-Keeps _)

pub chance-Keeps : (n : ℕ) → Keeps 0 0 (chance n)
unfolding chance
chance-Keeps n = bind-Keeps roll-Keeps (λ k. pure-Keeps _)

pub doze-Keeps : (lo hi : ℕ) → Keeps 0 0 (doze lo hi)
unfolding doze
doze-Keeps lo hi = bind-Keeps (between-Keeps lo hi) wait-Keeps

pub if-Keeps :
    {A : Type 0}
    → {e k : ℕ} {m n : M A} (b : Bool) → Keeps e k m
    → Keeps e k n
    → Keeps e k (elim b [ true ↦ m | false ↦ n ])
if-Keeps true p q = p
if-Keeps false p q = q
