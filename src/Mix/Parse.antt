-- ===== src/Mix/Parse.antt =====
-- `parse_mix` on any text, and the cell that it configures.
use nim_vortex.Prelude.{ℕ, ◌^◌, ◌≤◌, ◌<◌, ◌≡◌, refl, ◌∙◌, Bool, List, [], ◌∷◌, length, arith}
use nim_vortex.Prelude.Bytes.{Bytes}
use nim_vortex.Prelude.Text.{strip, split_on, partition, int_onto}
use nim_vortex.Prelude.Dict.{Dict, keys, keys-update, IsFree, IsDict, IsDict-keys, length-keys_eq}
use nim_vortex.Mix.Repair.{EachDrives}
use nim_vortex.Mix.Split.{Splits, split_mix_lem, length-weighted}
use nim_vortex.Mix.{
  Outcome, ok, mix_fail, value_error, ◌>>=◌, MixState, mix_default, int_of_digits, set_weight,
  mix_entry, mix_item, mix_items, positive, or_no_workload, parse_mix, split_mix, mix_slices,
}

-- What an outcome says of the dict, where there is one.
abbrev KeepsKeys : Dict ℕ → Outcome MixState → Type 0
KeepsKeys d (ok st) = keys st.share ≡ keys d
KeepsKeys d (mix_fail r) = Unit
KeepsKeys d value_error = Unit

mix_entry-KeepsKeys :
    (st : MixState) (item k : Bytes) (eq : Bool) (v : Bytes)
    → KeepsKeys st.share (mix_entry st item k eq v)
unfolding mix_entry int_of_digits set_weight
mix_entry-KeepsKeys st item k eq v = ground (arith, keys-update k (int_onto 0 v) st.share)

mix_item-KeepsKeys : (st : MixState) (item : Bytes) → KeepsKeys st.share (mix_item st item)
unfolding mix_item
mix_item-KeepsKeys st [] = refl
mix_item-KeepsKeys st (c ∷ s) =
    let (k, eq, v) = partition b'=' (c ∷ s) in mix_entry-KeepsKeys st (c ∷ s) (strip k) eq (strip v)

KeepsKeys-trans :
    (d d' : Dict ℕ) (o : Outcome MixState) → keys d' ≡ keys d → KeepsKeys d' o → KeepsKeys d o
KeepsKeys-trans d d' (ok st) e k = k ∙ e
KeepsKeys-trans d d' (mix_fail r) e k = tt
KeepsKeys-trans d d' value_error e k = tt

KeepsKeys-bind :
    (d : Dict ℕ) (o : Outcome MixState) (f : MixState → Outcome MixState)
    → KeepsKeys d o
    → ((st : MixState) → KeepsKeys st.share (f st))
    → KeepsKeys d (o >>= f)
KeepsKeys-bind d (ok st) f k kf = KeepsKeys-trans d st.share (f st) k (kf st)
KeepsKeys-bind d (mix_fail r) f k kf = tt
KeepsKeys-bind d value_error f k kf = tt

mix_items-KeepsKeys : (items : List Bytes) (st : MixState) → KeepsKeys st.share (mix_items st items)
unfolding mix_items
mix_items-KeepsKeys [] st = refl
mix_items-KeepsKeys (item ∷ items) st =
    KeepsKeys-bind st.share (mix_item st (strip item)) (λ st'. mix_items st' items)
      (mix_item-KeepsKeys st (strip item)) (mix_items-KeepsKeys items)

positive-IsFree : (k : Bytes) (d : Dict ℕ) → IsFree k d → IsFree k (positive d)
unfolding positive
positive-IsFree k [] h = tt
positive-IsFree k ((j, w) ∷ d) h = ground (arith, positive-IsFree k d h.1)

-- A list of slices as `split_mix` wants it: distinct, with positive weights, five at most.
pub record IsMix (d : Dict ℕ) : Type 0 where
  pub distinct : IsDict d
  pub weights : EachDrives d
  pub few : length d ≤ 5

positive_lem :
    (d : Dict ℕ)
    → IsDict d
    → IsDict (positive d) × EachDrives (positive d) × (length (positive d) ≤ length d)
unfolding positive
positive_lem [] h = (tt, tt, omega arith)
positive_lem ((k, w) ∷ d) h = ground (arith, positive_lem d h.1, positive-IsFree k d h.0)

-- A parse that succeeds gives some slices of that kind.
abbrev pub Configures : Outcome (Dict ℕ) → Type 0
Configures (ok d) = IsMix d × (0 < length d)
Configures (mix_fail r) = Unit
Configures value_error = Unit

or_no_workload-Configures :
    (d : Dict ℕ) → IsDict d × EachDrives d × (length d ≤ 5) → Configures (or_no_workload d)
unfolding or_no_workload
or_no_workload-Configures [] h = tt
or_no_workload-Configures (e ∷ d) (distinct, weights, few) =
    (record { distinct = distinct; weights = weights; few = few }, omega arith)

mix_default-IsDict : IsDict mix_default
mix_default-IsDict = ground arith

state-Configures :
    (o : Outcome MixState)
    → KeepsKeys mix_default o
    → Configures (o >>= λ st. or_no_workload (positive st.share))
state-Configures (ok st) k =
    let (distinct, weights, shorter) =
      positive_lem st.share (IsDict-keys st.share mix_default k mix_default-IsDict) in
    or_no_workload-Configures (positive st.share)
      (distinct, weights, omega (arith, length-keys_eq st.share mix_default k))
state-Configures (mix_fail r) k = tt
state-Configures value_error k = tt

-- When `parse_mix` accepts a text, it returns between one and five slices, no slice twice, and each
-- with a weight above 0.
pub parse_mix-Configures : (env : Bytes) → Configures (parse_mix env)
unfolding parse_mix
parse_mix-Configures env =
    state-Configures _
      (mix_items-KeepsKeys (split_on b',' (strip env)) (record { share = mix_default; seen = [] }))

-- What a cell with a budget of `conc` workers a client is given to run.
abbrev pub RunsWithin : ℕ → Outcome (Dict ℕ) → Outcome (Dict ℕ) → Type 0
RunsWithin conc (ok shares) o = Splits conc shares o
RunsWithin conc (mix_fail r) o = o ≡ mix_fail r
RunsWithin conc value_error o = o ≡ value_error

Configures-RunsWithin :
    (conc : ℕ) (o : Outcome (Dict ℕ))
    → conc < 2 ^ 50
    → Configures o
    → RunsWithin conc o (o >>= split_mix conc)
Configures-RunsWithin conc (ok d) small (mix, some_slice) =
    split_mix_lem conc d small (omega (arith, length-weighted d, mix.few)) mix.distinct mix.weights
Configures-RunsWithin conc (mix_fail r) small c = refl
Configures-RunsWithin conc value_error small c = refl

-- For a budget below 2 ^ 50 and whatever VORTEX_MIX says, the slices of a mixed cell split as
-- `split_mix` promises, or the cell is refused: for the shares that `parse_mix` reads from the text, a
-- budget below their number is refused, and any other gives every slice at least one worker and each
-- streaming slice just one, and is handed out exactly, but where only streaming slices are present: these
-- get one worker each. A text that `parse_mix` refuses is refused for the same reason.
pub mix_slices-RunsWithin :
    (env : Bytes) (conc : ℕ) → conc < 2 ^ 50 → RunsWithin conc (parse_mix env) (mix_slices env conc)
unfolding mix_slices
mix_slices-RunsWithin env conc small =
    Configures-RunsWithin conc (parse_mix env) small (parse_mix-Configures env)
