-- ===== src/Chaos/Pool.antt =====
-- `build_pool`: which behaviours a cell can pick.
use nim_vortex.Prelude.{
  ◌≡◌, inl, inr, refl, sym, ◌∙◌, Bool, true, false, not, ◌&&◌, ◌||◌, List, [], ◌∷◌, ◌++◌, drop,
  if◌then◌else◌, arith, Bool-cases,
}
use nim_vortex.Prelude.Bytes.{Bytes, codes, equal, equal_sound, equal_refl}
use nim_vortex.Prelude.Dict.{equal_iff}
use nim_vortex.Prelude.Text.{strip, lower, split_on, contains}
use nim_vortex.Chaos.{
  all_styles, Choice, chosen, exit_two, parse_behaviors, choose_names, Key, generic, behaviors,
  equal_key, has_key, targeted, targeted_pool, style_pool, build_pool,
}
use nim_vortex.Chaos.Styles.{AreStyles, Chooses, named, choose_names-Chooses}

has_key-append : (k : Key) (js ks : List Key) → has_key k (js ++ ks) ≡ has_key k js || has_key k ks
unfolding has_key
has_key-append k [] ks = refl
has_key-append k (j ∷ js) ks = ground (arith, has_key-append k js ks)

has_key-targeted :
    (s t style : Bytes) (ks : List Key)
    → has_key (s, t) (targeted style ks)
      ≡ (equal s style && (not (equal t generic) && has_key (s, t) ks))
unfolding has_key targeted equal_key
has_key-targeted s t style [] = ground arith
has_key-targeted s t style ((s', t') ∷ ks) = ground (
  arith,
  has_key-targeted s t style ks,
  equal_iff s style,
  equal_iff s' style,
  equal_iff t generic,
  equal_iff t' generic,
  equal_iff s s',
  equal_iff t t',
)

-- Which keys of `BEHAVIORS` a cell of `workload` drives.
abbrev pub is_live : Bytes → Key → Bool
is_live workload (s, t) =
    equal t generic
    || (has_key (s, t) behaviors && (equal workload (codes "mixed") || equal t workload))

has_key-targeted_pool :
    (workload style s t : Bytes) (ks : List Key)
    → has_key (s, t) ((style, generic) ∷ targeted_pool workload style ks) ≡ (
        equal s style
        && (equal t generic
            || (has_key (s, t) ks && (equal workload (codes "mixed") || equal t workload))))
unfolding targeted_pool has_key equal_key
has_key-targeted_pool workload style s t ks = ground (
  arith,
  has_key-targeted s t style ks,
  equal_iff s style,
  equal_iff t generic,
  equal_iff t workload,
)

has_key-style_pool :
    (workload style s t : Bytes)
    → has_key (s, t) (style_pool workload style) ≡ (equal s style && is_live workload (s, t))
unfolding style_pool
has_key-style_pool workload style s t = has_key-targeted_pool workload style s t behaviors

-- The pool of a cell holds a key just when its style is enabled and the key is the generic form of the
-- style or a targeted behaviour of `BEHAVIORS`, for this workload or, in the mixed cell, for any.
pub has_key-build_pool :
    (workload : Bytes) (styles : List Bytes) (k : Key)
    → has_key k (build_pool workload styles) ≡ (contains k.0 styles && is_live workload k)
unfolding build_pool contains has_key
has_key-build_pool workload [] (s, t) = refl
has_key-build_pool workload (style ∷ styles) (s, t) = ground (
  arith,
  has_key-append (s, t) (style_pool workload style) (build_pool workload styles),
  has_key-style_pool workload style s t,
  has_key-build_pool workload styles (s, t),
)

generics : List Bytes → List Key
generics [] = []
generics (style ∷ styles) = (style, generic) ∷ generics styles

has_key-generics :
    (style : Bytes) (styles : List Bytes) (rest : List Key)
    → contains style styles ≡ true
    → has_key (style, generic) (generics styles ++ rest) ≡ true
unfolding contains has_key equal_key generics
has_key-generics style [] rest h = cc
has_key-generics style (x ∷ styles) rest h =
    ground (arith, has_key-generics style styles rest, equal_iff style x, equal_refl generic)

has_key-behaviors :
    (style : Bytes) → contains style all_styles ≡ true → has_key (style, generic) behaviors ≡ true
unfolding generics
has_key-behaviors style h = has_key-generics style all_styles (drop 5 behaviors) h

Usable : Choice → Type 0
Usable (chosen styles) = AreStyles styles
Usable (exit_two name) = Unit

Chooses-Usable : (names : List Bytes) (c : Choice) → Chooses [] names c → Usable c
unfolding Usable
Chooses-Usable names (chosen out) h = h.0
Chooses-Usable names (exit_two name) h = tt

if-Usable : (b : Bool) (c d : Choice) → Usable c → Usable d → Usable (if b then c else d)
if-Usable true c d h k = h
if-Usable false c d h k = k

all_styles-AreStyles : AreStyles all_styles
unfolding contains equal
all_styles-AreStyles = (refl, (refl, (refl, (refl, (refl, tt)))))

parse_behaviors-Usable : (raw : Bytes) → Usable (parse_behaviors raw)
unfolding parse_behaviors Usable
parse_behaviors-Usable raw =
    let parts = split_on b',' (lower (strip raw)) in
    if-Usable (equal (lower (strip raw)) [] || equal (lower (strip raw)) (codes "none")) (chosen [])
      (if equal (lower (strip raw)) (codes "all") then chosen all_styles else choose_names parts [])
      tt
      (if-Usable (equal (lower (strip raw)) (codes "all")) (chosen all_styles)
        (choose_names parts []) all_styles-AreStyles
        (Chooses-Usable (named parts) (choose_names parts [])
          (choose_names-Chooses parts [] tt tt)))

Usable-eq : (c d : Choice) → c ≡ d → Usable c → Usable d
Usable-eq c d e h = rw (sym e) h

live-has_key :
    (s t : Bytes) (ks : List Key) (m : Bool)
    → has_key (s, generic) ks ≡ true
    → (equal t generic || (has_key (s, t) ks && m)) ≡ true
    → has_key (s, t) ks ≡ true
live-has_key s t ks m g h = elim (Bool-cases (equal t generic)) [
  | inl e ↦ rw (equal_sound t generic e) g
  | inr n ↦ ground arith
]

both : (a b : Bool) → (a && b) ≡ true → (a ≡ true) × (b ≡ true)
both a b h = ground arith

contains-AreStyles :
    (style : Bytes) (styles : List Bytes)
    → AreStyles styles
    → contains style styles ≡ true
    → contains style all_styles ≡ true
unfolding contains
contains-AreStyles style [] a h = cc
contains-AreStyles style (x ∷ styles) a h =
    ground (arith, equal_iff style x, contains-AreStyles style styles)

-- Every key that the pool offers to a worker is a key of `BEHAVIORS`, whatever the knob and the workload
-- are: the lookup in the worker never fails.
pub has_key-parse_behaviors :
    (workload raw : Bytes) (styles : List Bytes) (k : Key)
    → parse_behaviors raw ≡ chosen styles
    → has_key k (build_pool workload styles) ≡ true
    → has_key k behaviors ≡ true
unfolding Usable
has_key-parse_behaviors workload raw styles (s, t) e h =
    let (enabled, live) =
      both (contains s styles) (is_live workload (s, t))
        (sym (has_key-build_pool workload styles (s, t)) ∙ h) in
    let a = Usable-eq _ (chosen styles) e (parse_behaviors-Usable raw) in
    live-has_key s t behaviors (equal workload (codes "mixed") || equal t workload)
      (has_key-behaviors s (contains-AreStyles s styles a enabled)) live
