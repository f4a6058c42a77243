-- ===== src/Chaos.antt =====
-- The configuration of the chaos sidecar, conformance/stress/client/chaos.py: the enabled styles,
-- the pool of behaviours to pick from, and the tallies of the workers. Styles and workloads are
-- texts, as in the source. The behaviours themselves stand in Chaos.Behaviors.
pub mod Styles
pub mod Pool
pub mod Tallies
pub mod Fds
pub mod Run
pub mod Behaviors
pub mod Tests
use nim_vortex.Prelude.{
  ℕ, zero, suc, ◌+◌, ◌-◌, ◌*◌, ◌/◌, ◌%◌, ◌^◌, ◌≤◌, ◌<◌, min, max, ◌≡◌, ◌≢◌, ◌⊎◌, inl, inr, ◌↔◌,
  refl, sym, ap, ◌∙◌, Bool, true, false, not, ◌&&◌, ◌||◌, Option, none, some, List, [], ◌∷◌, ◌++◌,
  map, append-nil, append_assoc, length, get_elem?, get_or, take, drop, replicate, ltb, leb, ◌==◌,
  if◌then◌else◌, arith, ltb→lt, lt→ltb, leb→le, ==_iff, Bool-cases, Option-cases, length-append,
  length-take, length-drop, take-append-drop, take-append, drop-append, drop-nil, drop-drop,
  get_or-drop, get_or-append_left, drop-append_left, take-append_left, slice-append_left, drop_all,
}
use nim_vortex.Prelude.Bytes.{Bytes, codes, equal}
use nim_vortex.Prelude.Text.{strip, lower, split_on, contains, show}

-- `_ALL`
abbrev pub all_styles : List Bytes
all_styles =
    codes "slowread" ∷ codes "slowwrite" ∷ codes "idle" ∷ codes "abort" ∷ codes "vanish" ∷ []

-- A list of styles, or `sys.exit(2)` on the name that is not one.
pub data Choice : Type 0 where
  chosen : List Bytes → Choice
  exit_two : Bytes → Choice

-- `if name not in out: out.append(name)`
unfoldable pub append_new : List Bytes → Bytes → List Bytes
append_new out name = if contains name out then out else out ++ name ∷ []

-- One round of the loop over the names.
unfoldable pub choose_name : List Bytes → Bytes → Choice
choose_name out [] = chosen out
choose_name out (c ∷ s) =
    if contains (c ∷ s) all_styles then chosen (append_new out (c ∷ s)) else exit_two (c ∷ s)

abbrev pub then_choose : Choice → (List Bytes → Choice) → Choice
then_choose (chosen out) f = f out
then_choose (exit_two name) f = exit_two name

unfoldable pub choose_names : List Bytes → List Bytes → Choice
choose_names [] out = chosen out
choose_names (part ∷ parts) out = then_choose (choose_name out (strip part)) (choose_names parts)

-- `parse_behaviors(raw)`. `lower` is that of ASCII: no other character has a lower case that spells
-- a name of the catalog, "all" or "none".
unfoldable pub parse_behaviors : Bytes → Choice
parse_behaviors raw =
    let v = lower (strip raw) in
    if equal v [] || equal v (codes "none")
    then chosen []
    else if equal v (codes "all")
    then chosen all_styles
    else choose_names (split_on b',' v) []

-- A key of `BEHAVIORS`: the style and the target.
abbrev pub Key : Type 0
Key = Bytes × Bytes

abbrev pub generic : Bytes
generic = codes "generic"

-- The keys of `BEHAVIORS`, in insertion order.
abbrev pub behaviors : List Key
behaviors =
    (codes "slowread", generic)
    ∷ (codes "slowwrite", generic)
    ∷ (codes "idle", generic)
    ∷ (codes "abort", generic)
    ∷ (codes "vanish", generic)
    ∷ (codes "slowread", codes "ws")
    ∷ (codes "abort", codes "ws")
    ∷ (codes "vanish", codes "ws")
    ∷ (codes "slowread", codes "sse")
    ∷ (codes "idle", codes "sse")
    ∷ (codes "abort", codes "sse")
    ∷ (codes "vanish", codes "sse")
    ∷ (codes "slowwrite", codes "streamupload")
    ∷ (codes "vanish", codes "streamupload")
    ∷ (codes "idle", codes "streamdownload")
    ∷ []

unfoldable pub equal_key : Key → Key → Bool
equal_key (s, t) (s', t') = equal s s' && equal t t'

-- `key in keys`
unfoldable pub has_key : Key → List Key → Bool
has_key k [] = false
has_key k (j ∷ js) = if equal_key k j then true else has_key k js

-- `[k for k in BEHAVIORS if k[0] == style and k[1] != "generic"]`
unfoldable pub targeted : Bytes → List Key → List Key
targeted style [] = []
targeted style ((s, t) ∷ ks) =
    if equal s style && not (equal t generic) then (s, t) ∷ targeted style ks else targeted style ks

-- The targeted behaviours that one style adds to the pool of a cell of `workload`.
unfoldable pub targeted_pool : Bytes → Bytes → List Key → List Key
targeted_pool workload style catalog =
    if equal workload (codes "mixed")
    then targeted style catalog
    else if has_key (style, workload) catalog
    then (style, workload) ∷ []
    else []

unfoldable pub style_pool : Bytes → Bytes → List Key
style_pool workload style = (style, generic) ∷ targeted_pool workload style behaviors

-- `build_pool(enabled)`
unfoldable pub build_pool : Bytes → List Bytes → List Key
build_pool workload [] = []
build_pool workload (style ∷ styles) = style_pool workload style ++ build_pool workload styles

-- `_fmt_key(key)`
unfoldable pub fmt_key : Key → Bytes
fmt_key (style, target) = if equal target generic then style else target ++ b':' ∷ style

-- `_ok` and `_err`: how often each key ended, which way.
pub record Tally : Type 0 where
  pub ok : List (Key × ℕ)
  pub err : List (Key × ℕ)

-- `counter[key] += 1`
unfoldable pub bump_key : Key → List (Key × ℕ) → List (Key × ℕ)
bump_key k [] = (k, 1) ∷ []
bump_key k ((j, n) ∷ c) = if equal_key k j then (j, n + 1) ∷ c else (j, n) ∷ bump_key k c

-- `counter[key]`, which is 0 for a key that is not there.
unfoldable pub count_key : Key → List (Key × ℕ) → ℕ
count_key k [] = 0
count_key k ((j, n) ∷ c) = if equal_key k j then n else count_key k c

-- One round of `worker`: the behaviour picked from the pool returned, or raised an Exception.
unfoldable pub worker_round : Tally → Key × Bool → Tally
worker_round t (k, returned) =
    if returned then record t { ok = bump_key k t.ok } else record t { err = bump_key k t.err }

-- The rounds of all workers, in the order in which they end.
unfoldable pub worker_rounds : Tally → List (Key × Bool) → Tally
worker_rounds t [] = t
worker_rounds t (r ∷ rs) = worker_rounds (worker_round t r) rs

-- `" ".join(f"{_fmt_key(k)}{mark}{counter[k]}" for k in pool if counter[k])`
unfoldable pub tally_words : ℕ → List Key → List (Key × ℕ) → List Bytes
tally_words mark [] c = []
tally_words mark (k ∷ ks) c =
    if count_key k c == 0
    then tally_words mark ks c
    else (fmt_key k ++ mark ∷ show (count_key k c)) ∷ tally_words mark ks c

unfoldable pub join_words : List Bytes → Bytes
join_words [] = []
join_words (w ∷ []) = w
join_words (w ∷ v ∷ ws) = w ++ b' ' ∷ join_words (v ∷ ws)

unfoldable pub or_dash : Bytes → Bytes
or_dash [] = b'-' ∷ []
or_dash (c ∷ s) = c ∷ s

-- `_tally_line(pool, prefix)`
unfoldable pub tally_line : Bytes → List Key → Bytes → Tally → Bytes
tally_line proto pool prefix t =
    codes "[chaos "
    ++ (proto
        ++ (codes "] "
            ++ (prefix
                ++ (codes "ok: "
                    ++ (or_dash (join_words (tally_words b'=' pool t.ok))
                        ++ (codes " | err: "
                            ++ or_dash (join_words (tally_words b'!' pool t.err))))))))
