-- ===== src/Mix.antt =====
-- The worker mix of the `mixed` soak in conformance/stress/client/stress_client.py: `parse_mix` reads
-- the knob VORTEX_MIX, and `split_mix` hands a budget of workers out over the slices.
pub mod Quotient
pub mod Bounds
pub mod Spare
pub mod Repair
pub mod Allocate
pub mod Split
pub mod Parse
pub mod Tests
use nim_vortex.Prelude.{
  ℕ, zero, suc, ◌+◌, ◌-◌, ◌*◌, ◌/◌, ◌%◌, ◌^◌, ◌≤◌, ◌<◌, min, max, ◌≡◌, ◌≢◌, ◌⊎◌, inl, inr, ◌↔◌,
  refl, sym, ap, ◌∙◌, Bool, true, false, not, ◌&&◌, ◌||◌, Option, none, some, List, [], ◌∷◌, ◌++◌,
  map, append-nil, append_assoc, length, get_elem?, get_or, take, drop, replicate, ltb, leb, ◌==◌,
  if◌then◌else◌, arith, ltb→lt, lt→ltb, leb→le, ==_iff, Bool-cases, Option-cases, length-append,
  length-take, length-drop, take-append-drop, take-append, drop-append, drop-nil, drop-drop,
  get_or-drop, get_or-append_left, drop-append_left, take-append_left, slice-append_left, drop_all,
}
use nim_vortex.Prelude.Bytes.{Bytes, codes, equal}
use nim_vortex.Prelude.Text.{strip, split_on, partition, is_ascii_digits, int_onto, contains}
use nim_vortex.Prelude.Dict.{Dict, lookup, update, keys}
use nim_vortex.Mix.Quotient.{Double, divide, whole, fraction_lt}

-- What `mix_fail` is called for; each exits with code 2.
pub data Reason : Type 0 where
  bad_entry unknown_workload named_twice bad_weight : Bytes → Reason
  no_workload : Reason
  budget_too_small : ℕ → Reason

-- `mix_fail(msg)`, or the ValueError of `int` on a text of more than 4300 digits.
pub data Outcome {ℓ} (A : Type ℓ) : Type ℓ where
  ok : A → Outcome A
  mix_fail : Reason → Outcome A
  value_error : Outcome A

infixl 5 ◌>>=◌
abbrev pub ◌>>=◌ {ℓ κ} : {A : Type ℓ} {B : Type κ} → Outcome A → (A → Outcome B) → Outcome B
ok a >>= f = f a
mix_fail r >>= f = mix_fail r
value_error >>= f = value_error

abbrev pub requests : Bytes
requests = codes "requests"

abbrev pub ws : Bytes
ws = codes "ws"

abbrev pub sse : Bytes
sse = codes "sse"

abbrev pub streamupload : Bytes
streamupload = codes "streamupload"

abbrev pub streamdownload : Bytes
streamdownload = codes "streamdownload"

-- `MIX_DEFAULT`
abbrev pub mix_default : Dict ℕ
mix_default = (requests, 40) ∷ (ws, 20) ∷ (sse, 20) ∷ (streamupload, 10) ∷ (streamdownload, 10) ∷ []

-- `MIX_FIXED`
abbrev pub mix_fixed : List Bytes
mix_fixed = streamupload ∷ streamdownload ∷ []

-- `int(v)`: CPython refuses a decimal text of more than 4300 digits.
unfoldable pub int_of_digits : Bytes → Outcome ℕ
int_of_digits v = if ltb 4300 (length v) then value_error else ok (int_onto 0 v)

-- The loop's variables `share` and `seen`.
pub record MixState : Type 0 where
  pub share : Dict ℕ
  pub seen : List Bytes

unfoldable pub set_weight : MixState → Bytes → ℕ → MixState
set_weight st k w = record { share = update k w st.share; seen = k ∷ st.seen }

-- The tests on one `name=weight`, in the order of the source.
unfoldable pub mix_entry : MixState → Bytes → Bytes → Bool → Bytes → Outcome MixState
mix_entry st item k eq v =
    if not eq
    then mix_fail (bad_entry item)
    else if not (contains k (keys st.share))
    then mix_fail (unknown_workload k)
    else if contains k st.seen
    then mix_fail (named_twice k)
    else if not (is_ascii_digits v)
    then mix_fail (bad_weight v)
    else (int_of_digits v >>= λ w. ok (set_weight st k w))

-- One round of the loop over `raw.split(",")`.
unfoldable pub mix_item : MixState → Bytes → Outcome MixState
mix_item st [] = ok st
mix_item st (c ∷ s) =
    let (k, eq, v) = partition b'=' (c ∷ s) in mix_entry st (c ∷ s) (strip k) eq (strip v)

unfoldable pub mix_items : MixState → List Bytes → Outcome MixState
mix_items st [] = ok st
mix_items st (item ∷ items) = mix_item st (strip item) >>= λ st'. mix_items st' items

-- `[(k, share[k]) for k, _ in MIX_DEFAULT if share[k] > 0]`
unfoldable pub positive : Dict ℕ → Dict ℕ
positive [] = []
positive ((k, w) ∷ d) = if ltb 0 w then (k, w) ∷ positive d else positive d

unfoldable pub or_no_workload : Dict ℕ → Outcome (Dict ℕ)
or_no_workload [] = mix_fail no_workload
or_no_workload (e ∷ d) = ok (e ∷ d)

-- `parse_mix()`, on the value of VORTEX_MIX.
unfoldable pub parse_mix : Bytes → Outcome (Dict ℕ)
parse_mix env =
    mix_items (record { share = mix_default; seen = [] }) (split_on b',' (strip env)) >>= λ st.
    or_no_workload (positive st.share)

-- `[(k, w) for k, w in shares if k not in MIX_FIXED]`
unfoldable pub weighted : Dict ℕ → Dict ℕ
weighted [] = []
weighted ((k, w) ∷ d) = if contains k mix_fixed then weighted d else (k, w) ∷ weighted d

unfoldable pub total : Dict ℕ → ℕ
total [] = 0
total ((k, n) ∷ d) = n + total d

-- `exact`, in binary floating point
unfoldable pub exact_shares : ℕ → ℕ → Dict ℕ → Dict Double
exact_shares left total_w [] = []
exact_shares left total_w ((k, w) ∷ d) =
    (k, divide (left * w) total_w) ∷ exact_shares left total_w d

-- `alloc`
unfoldable pub floors : Dict Double → Dict ℕ
floors [] = []
floors ((k, x) ∷ d) = (k, whole x) ∷ floors d

-- `sorted(exact, key=fractional part, reverse=True)`, which is stable
unfoldable pub insert_desc : Bytes × Double → Dict Double → Dict Double
insert_desc e [] = e ∷ []
insert_desc e (f ∷ d) = if fraction_lt e.1 f.1 then f ∷ insert_desc e d else e ∷ f ∷ d

unfoldable pub sort_desc : Dict Double → Dict Double
sort_desc [] = []
sort_desc (e ∷ d) = insert_desc e (sort_desc d)

-- `alloc[k] += 1`
unfoldable pub add_one : Bytes → Dict ℕ → Dict ℕ
add_one k [] = []
add_one k ((j, n) ∷ d) = if equal k j then (j, n + 1) ∷ d else (j, n) ∷ add_one k d

-- The loop that gives the spare workers away, until none is left.
unfoldable pub give_spare : ℕ → Dict Double → Dict ℕ → Dict ℕ
give_spare spare [] alloc = alloc
give_spare zero (e ∷ d) alloc = alloc
give_spare (suc spare) (e ∷ d) alloc = give_spare spare d (add_one e.0 alloc)

-- `[k for k, n in alloc.items() if n == 0]`
unfoldable pub idle : Dict ℕ → List Bytes
idle [] = []
idle ((k, n) ∷ d) = if n == 0 then k ∷ idle d else idle d

-- `max(alloc, key=lambda j: alloc[j])`: the first entry of the greatest value
unfoldable pub first_max : Bytes × ℕ → Dict ℕ → Bytes × ℕ
first_max e [] = e
first_max e (f ∷ d) = first_max (if ltb e.1 f.1 then f else e) d

-- `alloc[donor] -= 1; alloc[k] = 1`. In Python a donor at 0 would go below; `Mix.Repair` shows that
-- the donor holds two workers at least. The source's `max` of an empty dict is never reached.
unfoldable pub take_from : Dict ℕ → Bytes → Dict ℕ
take_from [] k = []
take_from (e ∷ d) k = let (donor, n) = first_max e d in update k 1 (update donor (n - 1) (e ∷ d))

unfoldable pub repair : List Bytes → Dict ℕ → Dict ℕ
repair [] alloc = alloc
repair (k ∷ ks) alloc = repair ks (take_from alloc k)

-- `sum(w for _, w in rest) or len(rest)`
unfoldable pub total_weight : Dict ℕ → ℕ
total_weight rest = if total rest == 0 then length rest else total rest

-- `alloc` when the spare workers have been given away
unfoldable pub with_spare : ℕ → Dict Double → Dict ℕ
with_spare left exact = give_spare (left - total (floors exact)) (sort_desc exact) (floors exact)

-- `alloc` in the end, for the slices that share by weight
unfoldable pub repaired : Dict ℕ → Dict ℕ
repaired alloc = repair (idle alloc) alloc

unfoldable pub allocate : ℕ → Dict ℕ → Dict ℕ
allocate left rest = repaired (with_spare left (exact_shares left (total_weight rest) rest))

-- `out`: one worker each, then `out.update(alloc)`
unfoldable pub ones : Dict ℕ → Dict ℕ
ones [] = []
ones ((k, w) ∷ d) = (k, 1) ∷ ones d

unfoldable pub update_all : Dict ℕ → Dict ℕ → Dict ℕ
update_all out [] = out
update_all out ((k, n) ∷ d) = update_all (update k n out) d

unfoldable pub allocated : ℕ → Dict ℕ → Dict ℕ → Dict ℕ
allocated extra [] shares = ones shares
allocated zero (r ∷ rest) shares = ones shares
allocated (suc extra) (r ∷ rest) shares =
    update_all (ones shares) (allocate (suc extra + length (r ∷ rest)) (r ∷ rest))

-- `split_mix(budget, shares)`; `out` has the keys of `shares` in their order.
unfoldable pub split_mix : ℕ → Dict ℕ → Outcome (Dict ℕ)
split_mix budget shares =
    if ltb budget (length shares)
    then mix_fail (budget_too_small (length shares))
    else ok (allocated (budget - length shares) (weighted shares) shares)

-- `MIX_SLICES`, from VORTEX_MIX and VORTEX_CONCURRENCY
unfoldable pub mix_slices : Bytes → ℕ → Outcome (Dict ℕ)
mix_slices env conc = parse_mix env >>= split_mix conc
