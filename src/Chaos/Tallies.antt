-- ===== src/Chaos/Tallies.antt =====
-- `worker`: the tallies of what the behaviours did.
use nim_vortex.Prelude.{ℕ, ◌+◌, ◌≡◌, refl, Bool, true, false, not, ◌&&◌, List, [], ◌∷◌, arith}
use nim_vortex.Prelude.Bytes.{equal_refl}
use nim_vortex.Prelude.Dict.{equal_iff}
use nim_vortex.Chaos.{Key, equal_key, Tally, bump_key, count_key, worker_round, worker_rounds}

equal_key_sound : (k j : Key) → equal_key k j ≡ true → k ≡ j
unfolding equal_key
equal_key_sound (s, t) (s', t') h = ground (arith, equal_iff s s', equal_iff t t')

equal_key_refl : (k : Key) → equal_key k k ≡ true
unfolding equal_key
equal_key_refl (s, t) = rw (equal_refl s, equal_refl t) refl

-- A Boolean as the number it adds to a count.
abbrev pub one_if : Bool → ℕ
one_if true = 1
one_if false = 0

count_key-bump_key :
    (k j : Key) (c : List (Key × ℕ))
    → count_key k (bump_key j c) ≡ count_key k c + one_if (equal_key k j)
unfolding count_key bump_key
count_key-bump_key k j [] = ground arith
count_key-bump_key k j ((i, n) ∷ c) = ground (
  arith,
  count_key-bump_key k j c,
  equal_key_sound k j,
  equal_key_sound j i,
  equal_key_sound k i,
  equal_key_refl k,
  equal_key_refl j,
)

-- How many of the rounds picked `k` and ended as `returned` says.
pub rounds_of : Key → Bool → List (Key × Bool) → ℕ
rounds_of k returned [] = 0
rounds_of k true ((j, r) ∷ rs) = one_if (equal_key k j && r) + rounds_of k true rs
rounds_of k false ((j, r) ∷ rs) = one_if (equal_key k j && not r) + rounds_of k false rs

-- However the rounds of the workers interleave, each is counted once, under its own key and on its own
-- side: `_ok` has grown by the rounds that returned, `_err` by those that raised.
pub count_key-worker_rounds :
    (k : Key) (t : Tally) (rs : List (Key × Bool))
    → (count_key k (worker_rounds t rs).ok ≡ count_key k t.ok + rounds_of k true rs)
      × (count_key k (worker_rounds t rs).err ≡ count_key k t.err + rounds_of k false rs)
unfolding worker_rounds worker_round rounds_of
count_key-worker_rounds k t [] = (omega arith, omega arith)
count_key-worker_rounds k t ((j, true) ∷ rs) =
    let (o, e) = count_key-worker_rounds k (worker_round t (j, true)) rs in
    ground (arith, o, e, count_key-bump_key k j t.ok)
count_key-worker_rounds k t ((j, false) ∷ rs) =
    let (o, e) = count_key-worker_rounds k (worker_round t (j, false)) rs in
    ground (arith, o, e, count_key-bump_key k j t.err)
