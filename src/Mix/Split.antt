-- ===== src/Mix/Split.antt =====
-- What `split_mix` promises: exactly the budget, a worker for every slice, one for a streaming slice.
use nim_vortex.Prelude.{
  ℕ, zero, suc, ◌+◌, ◌-◌, ◌^◌, ◌≤◌, ◌<◌, ◌≡◌, ◌⊎◌, inl, inr, refl, sym, ap, ◌∙◌, true, false, some,
  List, [], ◌∷◌, length, ltb, ◌==◌, if◌then◌else◌, arith, ltb→lt, Bool-cases,
}
use nim_vortex.Prelude.Bytes.{Bytes, equal_refl}
use nim_vortex.Prelude.Text.{contains}
use nim_vortex.Prelude.Dict.{
  Dict, lookup, update, keys, IsFree, IsDict, lookup-update_ne, keys-update, IsFree-keys,
  IsDict-keys, length-keys_eq,
}
use mathlib.Core.Bool.{false≢true}
use mathlib.Core.Path.{subst}
use nim_vortex.Mix.Allocate.{allocate_lem}
use nim_vortex.Mix.Repair.{EachDrives, total-update}
use nim_vortex.Mix.{
  Outcome, ok, mix_fail, value_error, mix_fixed, weighted, total, allocate, ones, update_all,
  allocated, split_mix,
}

-- Each of these keys still holds the one worker of the floor.
abbrev HoldOne : List Bytes → Dict ℕ → Type 0
HoldOne [] out = Unit
HoldOne (k ∷ ks) out = (lookup k out ≡ some 1) × HoldOne ks out

HoldOne-update :
    (k : Bytes) (n : ℕ) (out d : Dict ℕ)
    → IsFree k d
    → HoldOne (keys d) out
    → HoldOne (keys d) (update k n out)
HoldOne-update k n out [] free h = tt
HoldOne-update k n out ((j, m) ∷ d) free h =
    (lookup-update_ne j k n out (λ e. free.0 (sym e)) ∙ h.0, HoldOne-update k n out d free.1 h.1)

update-EachDrives :
    (k : Bytes) (n : ℕ) (out : Dict ℕ) → 1 ≤ n → EachDrives out → EachDrives (update k n out)
unfolding update
update-EachDrives k n [] h e = tt
update-EachDrives k n ((j, m) ∷ out) h e = ground (arith, update-EachDrives k n out h e.1)

-- Overwriting the floors adds what the shares have beyond one worker each.
update_all_lem :
    (out d : Dict ℕ)
    → IsDict d
    → HoldOne (keys d) out
    → EachDrives d
    → EachDrives out
    → (total (update_all out d) + length d ≡ total out + total d)
      × (keys (update_all out d) ≡ keys out)
      × EachDrives (update_all out d)
unfolding update_all total
update_all_lem out [] dict h ed eo = (refl, refl, eo)
update_all_lem out ((k, n) ∷ d) dict h ed eo =
    let (t, s, drives) =
      update_all_lem (update k n out) d dict.1 (HoldOne-update k n out d dict.0 h.1) ed.1
        (update-EachDrives k n out ed.0 eo) in
    (omega (arith, total-update k n 1 out h.0), s ∙ keys-update k n out, drives)

lookup-update_all_free :
    (k : Bytes) (out d : Dict ℕ) → IsFree k d → lookup k (update_all out d) ≡ lookup k out
unfolding update_all
lookup-update_all_free k out [] free = refl
lookup-update_all_free k out ((j, n) ∷ d) free =
    lookup-update_all_free k (update j n out) d free.1 ∙ lookup-update_ne k j n out free.0

-- The floor.
total-ones :
    (d : Dict ℕ) → (total (ones d) ≡ length d) × (keys (ones d) ≡ keys d) × EachDrives (ones d)
unfolding total ones
total-ones [] = (refl, refl, tt)
total-ones ((k, w) ∷ d) =
    let (t, s, e) = total-ones d in (omega arith, ap (λ ks. k ∷ ks) s, (omega arith, e))

lookup-ones : (k : Bytes) (d : Dict ℕ) → contains k (keys d) ≡ true → lookup k (ones d) ≡ some 1
unfolding lookup ones contains
lookup-ones k [] h = cc
lookup-ones k ((j, w) ∷ d) h = ground (arith, lookup-ones k d)

-- The slices that share by weight are slices, in the same order, and none of them is a fixed one.
HoldOne-weighted :
    (d e : Dict ℕ) (k : Bytes) (w : ℕ)
    → HoldOne (keys e) (ones d)
    → HoldOne (keys e) (ones ((k, w) ∷ d))
unfolding lookup ones
HoldOne-weighted d [] k w h = tt
HoldOne-weighted d ((j, m) ∷ e) k w h = ground (arith, HoldOne-weighted d e k w h.1)

weighted-HoldOne : (d : Dict ℕ) → HoldOne (keys (weighted d)) (ones d)
unfolding weighted
weighted-HoldOne [] = tt
weighted-HoldOne ((k, w) ∷ d) = elim (Bool-cases (contains k mix_fixed)) [
  | inl fixed ↦ rw fixed (HoldOne-weighted d (weighted d) k w (weighted-HoldOne d))
  | inr free ↦ rw free (
    (unfold lookup ones in rw (equal_refl k)),
    HoldOne-weighted d (weighted d) k w (weighted-HoldOne d),
  )
]

weighted-IsFree : (k : Bytes) (d : Dict ℕ) → IsFree k d → IsFree k (weighted d)
unfolding weighted
weighted-IsFree k [] h = tt
weighted-IsFree k ((j, w) ∷ d) h = ground (arith, weighted-IsFree k d h.1)

weighted-IsDict : (d : Dict ℕ) → IsDict d → IsDict (weighted d)
unfolding weighted
weighted-IsDict [] h = tt
weighted-IsDict ((j, w) ∷ d) h = ground (arith, weighted-IsDict d h.1, weighted-IsFree j d h.0)

weighted-fixed : (k : Bytes) (d : Dict ℕ) → contains k mix_fixed ≡ true → IsFree k (weighted d)
unfolding weighted
weighted-fixed k [] h = tt
weighted-fixed k ((j, w) ∷ d) h = elim (Bool-cases (contains j mix_fixed)) [
  | inl fixed ↦ rw fixed (weighted-fixed k d h)
  | inr free ↦ rw free (
    (λ e. absurd (false≢true (sym free ∙ ap (λ i. contains i mix_fixed) (sym e) ∙ h))),
    weighted-fixed k d h,
  )
]

pub length-weighted : (d : Dict ℕ) → length (weighted d) ≤ length d
unfolding weighted
length-weighted [] = omega arith
length-weighted ((k, w) ∷ d) = ground (arith, length-weighted d)

weighted-total_pos : (d : Dict ℕ) → EachDrives d → length (weighted d) ≤ total (weighted d)
unfolding weighted total
weighted-total_pos [] h = omega arith
weighted-total_pos ((k, w) ∷ d) h = ground (arith, weighted-total_pos d h.1)

-- What `split_mix(budget, shares)` has to return: the slices of `shares` in their order, a worker
-- at least for each, one for a streaming slice, and the budget in all, or as many workers as
-- slices where all of them are streaming slices.
pub record IsSplit (budget : ℕ) (shares out : Dict ℕ) : Type 0 where
  pub same_slices : keys out ≡ keys shares
  pub each_drives : EachDrives out
  pub streaming :
      (k : Bytes)
      → (contains k mix_fixed ≡ false)
        ⊎ (contains k (keys shares) ≡ false)
        ⊎ (lookup k out ≡ some 1)
  pub workers : total out ≡ (if length (weighted shares) == 0 then length shares else budget)

ones-IsSplit :
    (budget : ℕ) (shares : Dict ℕ)
    → length shares ≡ (if length (weighted shares) == 0 then length shares else budget)
    → IsSplit budget shares (ones shares)
ones-IsSplit budget shares e =
    let (t, s, drives) = total-ones shares in
    record {
      same_slices = s;
      each_drives = drives;
      streaming = λ k. ground (arith, lookup-ones k shares);
      workers = t ∙ e;
    }

update_all_fixed :
    (k : Bytes) (shares alloc : Dict ℕ)
    → keys alloc ≡ keys (weighted shares)
    → contains k mix_fixed ≡ true
    → lookup k (update_all (ones shares) alloc) ≡ lookup k (ones shares)
update_all_fixed k shares alloc same fixed =
    lookup-update_all_free k (ones shares) alloc
      (IsFree-keys k alloc (weighted shares) same (weighted-fixed k shares fixed))

spread-IsSplit :
    (budget : ℕ) (shares rest alloc : Dict ℕ)
    → rest ≡ weighted shares
    → (left : ℕ) → budget + length rest ≡ left + length shares
    → 0 < length rest
    → IsDict shares
    → (total alloc ≡ left) × (keys alloc ≡ keys rest) × EachDrives alloc
    → IsSplit budget shares (update_all (ones shares) alloc)
spread-IsSplit budget shares rest alloc e left b some_rest dict (t, s, drives) =
    let (t1, s1, drives1) = total-ones shares in
    let same : keys alloc ≡ keys (weighted shares) = s ∙ ap keys e in
    let held : HoldOne (keys alloc) (ones shares) = rw same (weighted-HoldOne shares) in
    let (t2, s2, drives2) =
      update_all_lem (ones shares) alloc
        (IsDict-keys alloc (weighted shares) same (weighted-IsDict shares dict)) held drives
        drives1 in
    record {
      same_slices = s2 ∙ s1;
      each_drives = drives2;
      streaming = λ k. ground (arith, update_all_fixed k shares alloc same, lookup-ones k shares);
      workers = rw (← e) (ground (arith, length-keys_eq alloc rest s));
    }

allocated-IsSplit :
    (budget extra : ℕ) (rest shares : Dict ℕ)
    → rest ≡ weighted shares
    → budget ≡ extra + length shares
    → budget < 2 ^ 50
    → length rest ≤ 7
    → IsDict shares
    → EachDrives shares
    → IsSplit budget shares (allocated extra rest shares)
unfolding allocated
allocated-IsSplit budget extra [] shares e b small few dict drives =
    ones-IsSplit budget shares (rw (← e))
allocated-IsSplit budget zero (r ∷ rest) shares e b small few dict drives =
    ones-IsSplit budget shares (rw (← e) (ground arith))
allocated-IsSplit budget (suc extra) (r ∷ rest) shares e b small few dict drives =
    let fits : length (r ∷ rest) ≤ length shares = rw (← e) at (length-weighted shares) in
    let some_weight : length (r ∷ rest) ≤ total (r ∷ rest) =
      rw (← e) at (weighted-total_pos shares drives) in
    spread-IsSplit budget shares (r ∷ rest) (allocate (suc extra + length (r ∷ rest)) (r ∷ rest)) e
      (suc extra + length (r ∷ rest)) (omega arith) (omega arith) dict
      (allocate_lem (suc extra + length (r ∷ rest)) (r ∷ rest) (omega arith) (omega arith) few
        (omega arith) (subst IsDict (sym e) (weighted-IsDict shares dict)))

-- What a call of `split_mix` may do.
abbrev pub Splits : ℕ → Dict ℕ → Outcome (Dict ℕ) → Type 0
Splits budget shares (ok out) = (length shares ≤ budget) × IsSplit budget shares out
Splits budget shares (mix_fail r) = budget < length shares
Splits budget shares value_error = ⊥

-- `split_mix` is refused exactly when the budget is below the number of slices; else it keeps the
-- slices in order, gives each a worker at least and each streaming slice one, and hands out
-- exactly the budget (or one worker a slice where only streaming slices are present). This is for
-- distinct slices with positive weights, seven that share by weight at most, a budget below 2 ^ 50,
-- and shares computed in binary64.
pub split_mix_lem :
    (budget : ℕ) (shares : Dict ℕ)
    → budget < 2 ^ 50
    → length (weighted shares) ≤ 7
    → IsDict shares
    → EachDrives shares
    → Splits budget shares (split_mix budget shares)
unfolding split_mix
split_mix_lem budget shares small few dict drives = elim (Bool-cases (ltb budget (length shares))) [
  | inl short ↦ rw short (ltb→lt _ _ short)
  | inr enough ↦
      let fits : length shares ≤ budget = ground arith in
      rw enough (
        fits,
        allocated-IsSplit budget (budget - length shares) (weighted shares) shares refl
            (omega arith) small few dict drives,
      )
]
