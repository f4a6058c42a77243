-- ===== src/Chaos/Styles.antt =====
-- `parse_behaviors`: the styles that a knob enables.
use nim_vortex.Prelude.{
  ◌≡◌, inl, inr, refl, Bool, true, false, ◌||◌, List, [], ◌∷◌, ◌++◌, arith, Bool-cases,
}
use nim_vortex.Prelude.Bytes.{Bytes, equal, equal_refl}
use nim_vortex.Prelude.Dict.{equal_iff}
use nim_vortex.Prelude.Text.{strip, contains}
use nim_vortex.Chaos.{
  all_styles, Choice, chosen, exit_two, append_new, choose_name, then_choose, choose_names,
}

contains-append :
    (k : Bytes) (xs ys : List Bytes) → contains k (xs ++ ys) ≡ contains k xs || contains k ys
unfolding contains
contains-append k [] ys = refl
contains-append k (x ∷ xs) ys = ground (arith, contains-append k xs ys)

contains-append_new :
    (k name : Bytes) (out : List Bytes)
    → contains k (append_new out name) ≡ (contains k out || equal k name)
unfolding append_new contains
contains-append_new k name out = ground (arith, contains-append k out (name ∷ []), equal_iff k name)

-- No name stands twice.
abbrev pub NoRepeat : List Bytes → Type 0
NoRepeat [] = Unit
NoRepeat (x ∷ xs) = (contains x xs ≡ false) × NoRepeat xs

NoRepeat-append_one :
    (name : Bytes) (out : List Bytes)
    → contains name out ≡ false
    → NoRepeat out
    → NoRepeat (out ++ name ∷ [])
unfolding contains
NoRepeat-append_one name [] h r = (refl, tt)
NoRepeat-append_one name (x ∷ xs) h r = ground (
  arith,
  contains-append x xs (name ∷ []),
  equal_iff name x,
  equal_iff x name,
  equal_refl x,
  NoRepeat-append_one name xs,
)

-- The names that the loop reads: the parts that are not blank, without the blanks around them.
abbrev pub with_name : Bytes → List Bytes → List Bytes
with_name [] names = names
with_name (c ∷ s) names = (c ∷ s) ∷ names

pub named : List Bytes → List Bytes
named [] = []
named (part ∷ parts) = with_name (strip part) (named parts)

abbrev pub AreStyles : List Bytes → Type 0
AreStyles [] = Unit
AreStyles (x ∷ xs) = (contains x all_styles ≡ true) × AreStyles xs

AreStyles-append_one :
    (name : Bytes) (out : List Bytes)
    → contains name all_styles ≡ true
    → AreStyles out
    → AreStyles (out ++ name ∷ [])
AreStyles-append_one name [] h a = (h, tt)
AreStyles-append_one name (x ∷ xs) h a = (a.0, AreStyles-append_one name xs h a.1)

append_new_lem :
    (name : Bytes) (out : List Bytes)
    → contains name all_styles ≡ true
    → AreStyles out
    → NoRepeat out
    → AreStyles (append_new out name) × NoRepeat (append_new out name)
unfolding append_new
append_new_lem name out h a r =
    ground (arith, AreStyles-append_one name out h a, NoRepeat-append_one name out)

-- The outcome of the loop that began with `before`, for the names that it reads.
abbrev pub Chooses : List Bytes → List Bytes → Choice → Type 0
Chooses before names (chosen out) =
    AreStyles out
    × NoRepeat out
    × ((k : Bytes) → contains k out ≡ contains k before || contains k names)
Chooses before names (exit_two name) =
    (contains name names ≡ true) × (contains name all_styles ≡ false)

Chooses-cons :
    (name : Bytes) (before names : List Bytes) (c : Choice)
    → Chooses (append_new before name) names c
    → Chooses before (name ∷ names) c
unfolding contains
Chooses-cons name before names (chosen out) (a, r, h) =
    (a, r, λ k. ground (arith, h k, contains-append_new k name before))
Chooses-cons name before names (exit_two x) (h, u) = ground arith

or_false : (b : Bool) → b ≡ b || false
or_false true = refl
or_false false = refl

Chooses-name :
    (name : Bytes) (before names : List Bytes) (rest : List Bytes → Choice)
    → AreStyles before
    → NoRepeat before
    → ((out : List Bytes) → AreStyles out → NoRepeat out → Chooses out names (rest out))
    → Chooses before (with_name name names) (then_choose (choose_name before name) rest)
unfolding choose_name
Chooses-name [] before names rest a r ih = ih before a r
Chooses-name (c ∷ s) before names rest a r ih = elim (Bool-cases (contains (c ∷ s) all_styles)) [
  | inl known ↦
      let (a', r') = append_new_lem (c ∷ s) before known a r in
      rw known (Chooses-cons (c ∷ s) before names _ (ih (append_new before (c ∷ s)) a' r'))
  | inr unknown ↦ rw unknown (unfold contains in rw (equal_refl (c ∷ s)), unknown)
]

-- From the names that stand between the commas, the loop of `parse_behaviors` keeps exactly those,
-- each once and all of them styles of the catalog; or it exits with code 2, and then on a name of
-- theirs that is no style.
pub choose_names-Chooses :
    (parts out : List Bytes)
    → AreStyles out
    → NoRepeat out
    → Chooses out (named parts) (choose_names parts out)
unfolding choose_names named contains
choose_names-Chooses [] out a r = (a, r, λ k. or_false (contains k out))
choose_names-Chooses (part ∷ parts) out a r =
    Chooses-name (strip part) out (named parts) (choose_names parts) a r
      (choose_names-Chooses parts)
