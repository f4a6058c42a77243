-- ===== src/Mix/Repair.antt =====
-- The last loop of `split_mix`: every idle slice is given a worker of the largest one.
use nim_vortex.Prelude.{
  ℕ, ◌+◌, ◌-◌, ◌≤◌, ◌<◌, ◌≡◌, ◌≢◌, inl, inr, refl, sym, ap, ◌∙◌, Bool, Option, none, some, List, [],
  ◌∷◌, length, ltb, ◌==◌, if◌then◌else◌, arith, Bool-cases,
}
use native.Mathlib.Decide.{dec_le}
use mathlib.Core.Path.{subst}
use nim_vortex.Prelude.Bytes.{Bytes, equal_refl}
use nim_vortex.Prelude.Dict.{
  Dict, lookup, update, keys, IsFree, IsDict, equal_iff, lookup-update_ne, keys-update,
  length-update, lookup-IsFree, update-IsDict,
}
use nim_vortex.Mix.{total, idle, first_max, take_from, repair}

pub total-update :
    (k : Bytes) (v w : ℕ) (d : Dict ℕ)
    → lookup k d ≡ some w
    → total (update k v d) + w ≡ total d + v
unfolding total update lookup
total-update k v w [] h = cc
total-update k v w ((j, n) ∷ d) h = ground (arith, total-update k v w d)

-- One for a slice with no worker.
abbrev idles : ℕ → ℕ
idles n = if n == 0 then 1 else 0

length-idle-update :
    (k : Bytes) (v w : ℕ) (d : Dict ℕ)
    → lookup k d ≡ some w
    → length (idle (update k v d)) + idles w ≡ length (idle d) + idles v
unfolding idle update lookup
length-idle-update k v w [] h = cc
length-idle-update k v w ((j, n) ∷ d) h = ground (arith, length-idle-update k v w d)

length-idle_pos : (k : Bytes) (d : Dict ℕ) → lookup k d ≡ some 0 → 0 < length (idle d)
unfolding idle lookup
length-idle_pos k [] h = cc
length-idle_pos k ((j, n) ∷ d) h = ground (arith, length-idle_pos k d)

first_max_cons :
    (k j : Bytes) (n m : ℕ) (d : Dict ℕ) {b : Bool}
    → ltb n m ≡ b
    → first_max (k, n) ((j, m) ∷ d) ≡ first_max (if b then (j, m) else (k, n)) d
unfolding first_max
first_max_cons k j n m d e = ap (λ (c : Bool). first_max (if c then (j, m) else (k, n)) d) e

abbrev IsFoundIn : Dict ℕ → Bytes × ℕ → Type 0
IsFoundIn d e = lookup e.0 d ≡ some e.1

IsFoundIn-larger :
    (k : Bytes) (n : ℕ) (d : Dict ℕ) (e : Bytes × ℕ)
    → IsFree k d
    → IsFoundIn d e
    → IsFoundIn ((k, n) ∷ d) e
unfolding lookup
IsFoundIn-larger k n d e free found = ground (arith, equal_iff e.0 k, lookup-IsFree k d free)

IsFoundIn-kept :
    (k j : Bytes) (n m : ℕ) (d : Dict ℕ) (e : Bytes × ℕ)
    → k ≢ j
    → IsFree j d
    → IsFoundIn ((k, n) ∷ d) e
    → IsFoundIn ((k, n) ∷ (j, m) ∷ d) e
unfolding lookup
IsFoundIn-kept k j n m d e apart free found =
    ground (arith, equal_iff e.0 k, equal_iff e.0 j, lookup-IsFree j d free)

-- The largest entry is found under its key.
lookup-first_max :
    (k : Bytes) (n : ℕ) (d : Dict ℕ)
    → IsDict ((k, n) ∷ d)
    → IsFoundIn ((k, n) ∷ d) (first_max (k, n) d)
lookup-first_max k n [] h = unfold lookup first_max in ground (arith, equal_refl k)
lookup-first_max k n ((j, m) ∷ d) h = elim (Bool-cases (ltb n m)) [
  | inl larger ↦
      subst (IsFoundIn ((k, n) ∷ (j, m) ∷ d)) (sym (first_max_cons k j n m d larger))
        (IsFoundIn-larger k n ((j, m) ∷ d) (first_max (j, m) d) h.0 (lookup-first_max j m d h.1))
  | inr kept ↦ subst (IsFoundIn ((k, n) ∷ (j, m) ∷ d)) (sym (first_max_cons k j n m d kept)) (
      IsFoundIn-kept k j n m d (first_max (k, n) d) h.0.0 h.1.0
        (lookup-first_max k n d (h.0.1, h.1.1)))
]

-- If no slice has more than one worker, every worker belongs to a slice of its own.
first_max_small :
    (e : Bytes × ℕ) (d : Dict ℕ)
    → (first_max e d).1 ≤ 1
    → (e.1 ≤ 1) × (total d + length (idle d) ≤ length d)
unfolding first_max total idle
first_max_small e [] h = omega arith
first_max_small e (f ∷ d) h = ground (arith, first_max_small (if ltb e.1 f.1 then f else e) d h)

-- Keys that stand for idle slices, none of them twice.
abbrev NotIn : Bytes → List Bytes → Type 0
NotIn k [] = Unit
NotIn k (j ∷ js) = (k ≢ j) × NotIn k js

abbrev AreIdle : List Bytes → Dict ℕ → Type 0
AreIdle [] d = Unit
AreIdle (k ∷ ks) d = (lookup k d ≡ some 0) × NotIn k ks × AreIdle ks d

AreIdle-cons :
    (j : Bytes) (n : ℕ) (ks : List Bytes) (d : Dict ℕ)
    → lookup j d ≡ none
    → AreIdle ks d
    → AreIdle ks ((j, n) ∷ d) × NotIn j ks
unfolding lookup
AreIdle-cons j n [] d h a = (tt, tt)
AreIdle-cons j n (k ∷ ks) d h a = ground (arith, equal_iff k j, AreIdle-cons j n ks d h a.2)

idle-AreIdle : (d : Dict ℕ) → IsDict d → AreIdle (idle d) d
unfolding idle lookup
idle-AreIdle [] h = tt
idle-AreIdle ((j, n) ∷ d) h =
    ground (
      arith,
      equal_refl j,
      AreIdle-cons j n (idle d) d (lookup-IsFree j d h.0) (idle-AreIdle d h.1),
    )

-- One round. The donor has two workers at least, so it stays busy and no worker is lost.
record Repaired (k : Bytes) (ks : List Bytes) (d d' : Dict ℕ) : Type 0 where
  same_total : total d' ≡ total d
  same_keys : keys d' ≡ keys d
  same_length : length d' ≡ length d
  fewer_idle : length (idle d') + 1 ≡ length (idle d)
  is_dict : IsDict d'
  still_idle : AreIdle ks d'

AreIdle-update :
    (k : Bytes) (v : ℕ) (ks : List Bytes) (d : Dict ℕ)
    → NotIn k ks
    → AreIdle ks d
    → AreIdle ks (update k v d)
AreIdle-update k v [] d h a = tt
AreIdle-update k v (j ∷ js) d h a =
    (lookup-update_ne j k v d (λ e. h.0 (sym e)) ∙ a.0, a.1, AreIdle-update k v js d h.1 a.2)

-- A slice with workers is none of the idle ones.
NotIn-busy :
    (k : Bytes) (n : ℕ) (ks : List Bytes) (d : Dict ℕ)
    → lookup k d ≡ some n
    → n ≢ 0
    → AreIdle ks d
    → NotIn k ks
NotIn-busy k n [] d h busy a = tt
NotIn-busy k n (j ∷ js) d h busy a = ground (arith, NotIn-busy k n js d h busy a.2)

-- With a worker for every slice in all, and a slice idle, the largest has two at least.
first_max_busy :
    (k : Bytes) (e : Bytes × ℕ) (d : Dict ℕ)
    → length (e ∷ d) ≤ total (e ∷ d)
    → lookup k (e ∷ d) ≡ some 0
    → 2 ≤ (first_max e d).1
unfolding total idle
first_max_busy k e d enough is_idle = elim (dec_le 2 (first_max e d).1) [
  | yes two ↦ two
  | no one ↦
      absurd (ground (arith, first_max_small e d (omega arith), length-idle_pos k (e ∷ d) is_idle))
]

busy_apart :
    (k j : Bytes) (n : ℕ) (d : Dict ℕ) → lookup k d ≡ some 0 → lookup j d ≡ some n → 2 ≤ n → k ≢ j
busy_apart k j n d k_idle found two e =
    let same : ◌≡◌ {A = Option ℕ} (some 0) (some n) = sym k_idle ∙ ap (λ i. lookup i d) e ∙ found in
    ground arith

move_worker-Repaired :
    (k j : Bytes) (n : ℕ) (ks : List Bytes) (d : Dict ℕ)
    → IsDict d
    → lookup j d ≡ some n
    → 2 ≤ n
    → AreIdle (k ∷ ks) d
    → Repaired k ks d (update k 1 (update j (n - 1) d))
move_worker-Repaired k j n ks d dict found two (k_idle, fresh, idle_ks) =
    let apart : k ≢ j = busy_apart k j n d k_idle found two in
    let k_found : lookup k (update j (n - 1) d) ≡ some 0 =
      lookup-update_ne k j (n - 1) d apart ∙ k_idle in
    record {
      same_total = omega (
        arith,
        total-update j (n - 1) n d found,
        total-update k 1 0 (update j (n - 1) d) k_found,
      );
      same_keys = keys-update k 1 (update j (n - 1) d) ∙ keys-update j (n - 1) d;
      same_length = length-update k 1 (update j (n - 1) d) ∙ length-update j (n - 1) d;
      fewer_idle = ground (
        arith,
        length-idle-update j (n - 1) n d found,
        length-idle-update k 1 0 (update j (n - 1) d) k_found,
      );
      is_dict = update-IsDict k 1 (update j (n - 1) d) (update-IsDict j (n - 1) d dict);
      still_idle =
          AreIdle-update k 1 ks (update j (n - 1) d) fresh (
            AreIdle-update j (n - 1) ks d (NotIn-busy j n ks d found (omega arith) idle_ks)
              idle_ks);
    }

take_from-Repaired :
    (k : Bytes) (ks : List Bytes) (d : Dict ℕ)
    → IsDict d
    → length d ≤ total d
    → AreIdle (k ∷ ks) d
    → Repaired k ks d (take_from d k)
unfolding take_from
take_from-Repaired k ks [] dict enough (k_idle, fresh, rest) = unfold lookup in cc
take_from-Repaired k ks ((i, m) ∷ d) dict enough idle_ks =
    move_worker-Repaired k (first_max (i, m) d).0 (first_max (i, m) d).1 ks ((i, m) ∷ d) dict
      (lookup-first_max i m d dict) (first_max_busy k (i, m) d enough idle_ks.0) idle_ks

-- What the loop achieves: as many workers as before, and none idle.
repair-total :
    (ks : List Bytes) (d : Dict ℕ)
    → IsDict d
    → length d ≤ total d
    → AreIdle ks d
    → length (idle d) ≡ length ks
    → (total (repair ks d) ≡ total d)
      × (keys (repair ks d) ≡ keys d)
      × (length (idle (repair ks d)) ≡ 0)
unfolding repair
repair-total [] d dict enough a e = (refl, refl, e)
repair-total (k ∷ ks) d dict enough a e =
    let r = take_from-Repaired k ks d dict enough a in
    let (t, s, z) =
      repair-total ks (take_from d k) r.is_dict (omega (arith, r.same_length, r.same_total))
        r.still_idle (omega (arith, r.fewer_idle)) in
    (t ∙ r.same_total, s ∙ r.same_keys, z)

abbrev pub EachDrives : Dict ℕ → Type 0
EachDrives [] = Unit
EachDrives ((k, n) ∷ d) = (1 ≤ n) × EachDrives d

EachDrives-idle : (d : Dict ℕ) → length (idle d) ≡ 0 → EachDrives d
unfolding idle
EachDrives-idle [] h = tt
EachDrives-idle ((k, n) ∷ d) h = ground (arith, EachDrives-idle d)

-- The repair of an allocation that has as many workers as slices, and no slice twice, moves workers and makes
-- none: the total and the slices stay, and every slice has a worker.
pub repair-idle :
    (d : Dict ℕ)
    → IsDict d
    → length d ≤ total d
    → (total (repair (idle d) d) ≡ total d)
      × (keys (repair (idle d) d) ≡ keys d)
      × EachDrives (repair (idle d) d)
repair-idle d dict enough =
    let (t, s, z) = repair-total (idle d) d dict enough (idle-AreIdle d dict) refl in
    (t, s, EachDrives-idle _ z)
