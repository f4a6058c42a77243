-- ===== src/Mix/Allocate.antt =====
-- The slices of `split_mix` that share by weight get all that is left for them.
use nim_vortex.Prelude.{ℕ, ◌-◌, ◌^◌, ◌≤◌, ◌<◌, ◌≡◌, refl, ap, ◌∙◌, List, [], ◌∷◌, length, arith}
use nim_vortex.Prelude.Bytes.{Bytes, equal_refl}
use nim_vortex.Prelude.Text.{contains}
use nim_vortex.Prelude.Dict.{Dict, keys, IsDict, IsDict-keys, length-keys_eq}
use nim_vortex.Mix.Quotient.{Double}
use nim_vortex.Mix.Spare.{
  total-floors_bounds, Covers, keys-give_spare, total-give_spare, length-sort_desc,
  sort_desc-Covers,
}
use nim_vortex.Mix.Repair.{EachDrives, repair-idle}
use nim_vortex.Mix.{
  total, exact_shares, floors, sort_desc, with_spare, total_weight, repaired, allocate,
}

keys-exact_shares : (left b : ℕ) (d : Dict ℕ) → keys (exact_shares left b d) ≡ keys d
unfolding exact_shares
keys-exact_shares left b [] = refl
keys-exact_shares left b ((k, w) ∷ d) = ap (λ ks. k ∷ ks) (keys-exact_shares left b d)

keys-floors : (d : Dict Double) → keys (floors d) ≡ keys d
unfolding floors
keys-floors [] = refl
keys-floors ((k, x) ∷ d) = ap (λ ks. k ∷ ks) (keys-floors d)

Covers-more : (k : Bytes) (ks : List Bytes) (d : Dict Double) → Covers ks d → Covers (k ∷ ks) d
unfolding contains
Covers-more k ks [] c = tt
Covers-more k ks ((j, x) ∷ d) c = ground (arith, Covers-more k ks d c.1)

Covers-keys : (d : Dict Double) → Covers (keys d) d
unfolding contains
Covers-keys [] = tt
Covers-keys ((k, x) ∷ d) = (rw (equal_refl k), Covers-more k (keys d) d (Covers-keys d))

-- The allocation before the last loop: all of `left` is handed out, to the same slices.
with_spare-total :
    (left : ℕ) (rest : Dict ℕ)
    → left < 2 ^ 50
    → 0 < total rest
    → length rest ≤ 7
    → (total (with_spare left (exact_shares left (total rest) rest)) ≡ left)
      × (keys (with_spare left (exact_shares left (total rest) rest)) ≡ keys rest)
unfolding with_spare
with_spare-total left rest hl pos few =
    let exact = exact_shares left (total rest) rest in
    let (below, above) = total-floors_bounds left rest hl pos few in
    let same : keys exact ≡ keys rest = keys-exact_shares left (total rest) rest in
    let covers : Covers (keys (floors exact)) (sort_desc exact) =
      rw (keys-floors exact) (sort_desc-Covers (keys exact) exact (Covers-keys exact)) in
    (
      total-give_spare (left - total (floors exact)) (sort_desc exact) (floors exact)
            (omega (arith, length-sort_desc exact, length-keys_eq exact rest same)) covers
          ∙ omega arith,
      keys-give_spare (left - total (floors exact)) (sort_desc exact) (floors exact)
          ∙ keys-floors exact
          ∙ same,
    )

total_weight_pos : (rest : Dict ℕ) → 0 < total rest → total_weight rest ≡ total rest
unfolding total_weight
total_weight_pos rest h = ground arith

repaired_lem :
    (left : ℕ) (rest alloc : Dict ℕ)
    → length rest ≤ left
    → IsDict rest
    → total alloc ≡ left
    → keys alloc ≡ keys rest
    → (total (repaired alloc) ≡ left)
      × (keys (repaired alloc) ≡ keys rest)
      × EachDrives (repaired alloc)
unfolding repaired
repaired_lem left rest alloc fits dict t s =
    let (t', s', drives) =
      repair-idle alloc (IsDict-keys alloc rest s dict)
        (omega (arith, length-keys_eq alloc rest s)) in
    (t' ∙ t, s' ∙ s, drives)

-- The slices that share by weight: all of `left` is handed out, and none is idle.
pub allocate_lem :
    (left : ℕ) (rest : Dict ℕ)
    → left < 2 ^ 50
    → 0 < total rest
    → length rest ≤ 7
    → length rest ≤ left
    → IsDict rest
    → (total (allocate left rest) ≡ left)
      × (keys (allocate left rest) ≡ keys rest)
      × EachDrives (allocate left rest)
unfolding allocate
allocate_lem left rest hl pos few fits dict =
    let (t, s) = with_spare-total left rest hl pos few in
    rw (total_weight_pos rest pos) (repaired_lem left rest _ fits dict t s)
