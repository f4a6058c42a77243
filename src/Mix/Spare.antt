-- ===== src/Mix/Spare.antt =====
-- The largest-remainder step of `split_mix`: the rounded shares and the spare workers add up.
use nim_vortex.Prelude.{
  ℕ, zero, suc, ◌+◌, ◌*◌, ◌^◌, ◌≤◌, ◌<◌, ◌≡◌, refl, ap, ◌∙◌, true, List, [], ◌∷◌, length, arith,
}
use native.Mathlib.Decide.{dec_le}
use nim_vortex.Prelude.Bytes.{Bytes}
use nim_vortex.Prelude.Text.{contains}
use nim_vortex.Prelude.Dict.{Dict, keys}
use nim_vortex.Mix.Quotient.{Double}
use nim_vortex.Mix.Bounds.{whole-divide, mul_mono}
use nim_vortex.Mix.{total, exact_shares, floors, insert_desc, sort_desc, add_one, give_spare}

product_lt : (left w b : ℕ) → left < 2 ^ 50 → w ≤ b → 0 < b → left * w < 2 ^ 50 * b
product_lt left w b h hw hb =
    omega (arith, mul_mono w b left hw, mul_mono (left + 1) (2 ^ 50) b (omega arith))

-- The shares rounded down, against the exact shares, all in units of `1 / b`.
pub total-floors :
    (left b : ℕ) (d : Dict ℕ)
    → left < 2 ^ 50
    → 0 < b
    → total d ≤ b
    → (8 * (total (floors (exact_shares left b d)) * b) ≤ 8 * (left * total d) + length d * b)
      × (8 * (left * total d)
          ≤ 8 * (total (floors (exact_shares left b d)) * b) + 9 * (length d * b))
unfolding total floors exact_shares
total-floors left b [] hl hb h = omega arith
total-floors left b ((k, w) ∷ d) hl hb h = omega (
  arith,
  whole-divide (left * w) b hb (product_lt left w b hl (omega arith) hb),
  total-floors left b d hl hb (omega arith),
)

cancel_factor : (x y b : ℕ) → 0 < b → x * b ≤ y * b → x ≤ y
cancel_factor x y b hb h = elim (dec_le x y) [ yes le ↦ le | no gt ↦ absurd (grind arith) ]

-- With seven slices at most, rounding neither hands out more than there is nor leaves more spare
-- workers than slices.
pub total-floors_bounds :
    (left : ℕ) (d : Dict ℕ)
    → left < 2 ^ 50
    → 0 < total d
    → length d ≤ 7
    → (total (floors (exact_shares left (total d) d)) ≤ left)
      × (left ≤ total (floors (exact_shares left (total d) d)) + length d)
total-floors_bounds left d hl pos few =
    let given = total (floors (exact_shares left (total d) d)) in
    let (below, above) = total-floors left (total d) d hl pos (omega arith) in
    (
      omega (arith, cancel_factor (8 * given) (8 * left + length d) (total d) pos (omega arith)),
      omega
          (arith, cancel_factor (8 * left) (8 * given + 9 * length d) (total d) pos (omega arith)),
    )

-- Every key of the first dict is a key of the second list.
abbrev pub Covers {ℓ} : {V : Type ℓ} → List Bytes → Dict V → Type 0
Covers ks [] = Unit
Covers ks ((k, v) ∷ d) = (contains k ks ≡ true) × Covers ks d

total-add_one :
    (k : Bytes) (d : Dict ℕ) → contains k (keys d) ≡ true → total (add_one k d) ≡ total d + 1
unfolding total add_one contains
total-add_one k [] h = cc
total-add_one k ((j, n) ∷ d) h = ground (arith, total-add_one k d)

keys-add_one : (k : Bytes) (d : Dict ℕ) → keys (add_one k d) ≡ keys d
unfolding add_one
keys-add_one k [] = refl
keys-add_one k ((j, n) ∷ d) = ground (arith, keys-add_one k d)

pub keys-give_spare :
    (spare : ℕ) (d : Dict Double) (alloc : Dict ℕ) → keys (give_spare spare d alloc) ≡ keys alloc
unfolding give_spare
keys-give_spare spare [] alloc = refl
keys-give_spare zero (e ∷ d) alloc = refl
keys-give_spare (suc spare) (e ∷ d) alloc =
    keys-give_spare spare d (add_one e.0 alloc) ∙ keys-add_one e.0 alloc

pub total-give_spare :
    (spare : ℕ) (d : Dict Double) (alloc : Dict ℕ)
    → spare ≤ length d
    → Covers (keys alloc) d
    → total (give_spare spare d alloc) ≡ total alloc + spare
unfolding give_spare
total-give_spare zero [] alloc h c = omega arith
total-give_spare (suc spare) [] alloc h c = absurd (omega arith)
total-give_spare zero (e ∷ d) alloc h c = omega arith
total-give_spare (suc spare) ((k, x) ∷ d) alloc h (here, there) =
    total-give_spare spare d (add_one k alloc) (omega arith) (rw (keys-add_one k alloc) there)
    ∙ omega (arith, total-add_one k alloc here)

-- Sorting keeps the entries.
length-insert_desc :
    (e : Bytes × Double) (d : Dict Double) → length (insert_desc e d) ≡ suc (length d)
unfolding insert_desc
length-insert_desc e [] = refl
length-insert_desc e (f ∷ d) = ground (arith, length-insert_desc e d)

pub length-sort_desc : (d : Dict Double) → length (sort_desc d) ≡ length d
unfolding sort_desc
length-sort_desc [] = refl
length-sort_desc (e ∷ d) = length-insert_desc e (sort_desc d) ∙ ap suc (length-sort_desc d)

insert_desc-Covers :
    (ks : List Bytes) (e : Bytes × Double) (d : Dict Double)
    → contains e.0 ks ≡ true
    → Covers ks d
    → Covers ks (insert_desc e d)
unfolding insert_desc
insert_desc-Covers ks e [] h c = (h, tt)
insert_desc-Covers ks e (f ∷ d) h c = ground (arith, insert_desc-Covers ks e d h c.1)

pub sort_desc-Covers : (ks : List Bytes) (d : Dict Double) → Covers ks d → Covers ks (sort_desc d)
unfolding sort_desc
sort_desc-Covers ks [] c = tt
sort_desc-Covers ks (e ∷ d) c =
    insert_desc-Covers ks e (sort_desc d) c.0 (sort_desc-Covers ks d c.1)
