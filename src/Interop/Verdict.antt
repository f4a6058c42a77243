-- ===== src/Interop/Verdict.antt =====
-- When the client passes, and the total that it prints.
use nim_vortex.Prelude.{
  ℕ, ◌≡◌, ◌⊎◌, inl, inr, ◌↔◌, refl, Bool, true, false, ◌&&◌, some, List, [], ◌∷◌, arith, ==_iff,
}
use nim_vortex.Prelude.Bytes.{Bytes, codes}
use nim_vortex.Prelude.Dict.{equal_iff}
use nim_vortex.Interop.Checks.{
  is_good, all_good, is_named, good_rounds, good_workers, total_of, Judges, gather-results,
}
use nim_vortex.Interop.Names.{
  and_split, Names, NamesSubject, is_text_iff, echoes_method_iff, names_subject_iff,
}
use mathlib.Core.Path.{subst}
use nim_vortex.Interop.{
  Answer, replied, broken, Result, methods, Round, gather, results, Exit, passed, failed, exit,
  main,
}

-- What an answer of /echo should be, and one of /whoami.
abbrev pub IsGood : Bytes → Bytes → Answer → Type 0
IsGood enc m (broken text) = ⊥
IsGood enc m (replied r) =
    (r.status ≡ 200) × ((r.version ≡ codes "HTTP/2") × ((r.encoding ≡ some enc) × Names m r))

abbrev pub IsNamed : Bool → Answer → Type 0
IsNamed false a = Unit
IsNamed true (broken text) = ⊥
IsNamed true (replied r) = NamesSubject r

abbrev pub AreGood : Bytes → (Bytes → Answer) → List Bytes → Type 0
AreGood enc answer [] = Unit
AreGood enc answer (m ∷ ms) = IsGood enc m (answer m) × AreGood enc answer ms

abbrev pub GoodRounds : Bool → Bytes → List Round → Type 0
GoodRounds mtls enc [] = Unit
GoodRounds mtls enc (r ∷ rs) =
    AreGood enc r.echo methods × (IsNamed mtls r.subject × GoodRounds mtls enc rs)

abbrev pub GoodWorkers : Bool → Bytes → List (List Round) → Type 0
GoodWorkers mtls enc [] = Unit
GoodWorkers mtls enc (w ∷ ws) = GoodRounds mtls enc w × GoodWorkers mtls enc ws

both_iff :
    {A B : Type 0} → (a b : Bool) → (a ≡ true) ↔ A → (b ≡ true) ↔ B → (a && b ≡ true) ↔ (A × B)
both_iff a b f g =
    ((λ h. let (x, y) = and_split a b h in (f.0 x, g.0 y)), λ (x, y). ground (arith, f.1 x, g.1 y))

never_iff : (false ≡ true) ↔ ⊥
never_iff = ((λ h. absurd (ground arith)), λ h. absurd h)

always_iff : ◌↔◌ {0, 0} (true ≡ true) Unit
always_iff = ((λ h. tt), λ h. refl)

is_good_iff : (enc m : Bytes) (a : Answer) → (is_good enc m a ≡ true) ↔ IsGood enc m a
unfolding is_good
is_good_iff enc m (broken text) = never_iff
is_good_iff enc m (replied r) =
    let n = echoes_method_iff m r in
    let e = is_text_iff enc r.encoding in
    let v = equal_iff r.version (codes "HTTP/2") in
    both_iff _ _ (==_iff r.status 200) (both_iff _ _ v (both_iff _ _ e n))

all_good_iff :
    (enc : Bytes) (answer : Bytes → Answer) (ms : List Bytes)
    → (all_good enc answer ms ≡ true) ↔ AreGood enc answer ms
unfolding all_good
all_good_iff enc answer [] = always_iff
all_good_iff enc answer (m ∷ ms) =
    both_iff (is_good enc m (answer m)) (all_good enc answer ms) (is_good_iff enc m (answer m))
      (all_good_iff enc answer ms)

is_named_iff : (mtls : Bool) (a : Answer) → (is_named mtls a ≡ true) ↔ IsNamed mtls a
unfolding is_named
is_named_iff false a = always_iff
is_named_iff true (broken text) = never_iff
is_named_iff true (replied r) = names_subject_iff r

good_rounds_iff :
    (mtls : Bool) (enc : Bytes) (rs : List Round)
    → (good_rounds mtls enc rs ≡ true) ↔ GoodRounds mtls enc rs
unfolding good_rounds
good_rounds_iff mtls enc [] = always_iff
good_rounds_iff mtls enc (r ∷ rs) =
    both_iff (all_good enc r.echo methods) (is_named mtls r.subject && good_rounds mtls enc rs)
      (all_good_iff enc r.echo methods)
      (both_iff (is_named mtls r.subject) (good_rounds mtls enc rs) (is_named_iff mtls r.subject)
        (good_rounds_iff mtls enc rs))

good_workers_iff :
    (mtls : Bool) (enc : Bytes) (ws : List (List Round))
    → (good_workers mtls enc ws ≡ true) ↔ GoodWorkers mtls enc ws
unfolding good_workers
good_workers_iff mtls enc [] = always_iff
good_workers_iff mtls enc (w ∷ ws) =
    both_iff (good_rounds mtls enc w) (good_workers mtls enc ws) (good_rounds_iff mtls enc w)
      (good_workers_iff mtls enc ws)

-- The verdict is a pass with the number of requests if all is good, and a failure if not.
abbrev pub Decides : Type 0 → ℕ → Exit → Type 0
Decides Good n e = (Good × (e ≡ passed n)) ⊎ (¬ Good × ((text : Bytes) × (e ≡ failed text)))

exit-Decides :
    {Good : Type 0}
    → (good : Bool) (n : ℕ) (r : Result) → (good ≡ true) ↔ Good
    → Judges good n r
    → Decides Good n (exit r)
unfolding exit
exit-Decides true n r f h = inl (f.0 refl, rw h refl)
exit-Decides false n r f (text, e) = inr ((λ g. absurd (never_iff.0 (f.1 g))), (text, rw e refl))

-- The interop client passes just when every answer is good: each of /echo is a 200 over HTTP/2 in the
-- encoding that was asked for and names its method, HEAD in a header and any other anywhere in the body;
-- and with mTLS each of /whoami is a 200 whose text is neither blank nor a lone dash. The total that
-- it prints is then the number of requests that were made.
pub main-Decides :
    (mtls : Bool) (enc : Bytes) (workers : List (List Round))
    → Decides (GoodWorkers mtls enc workers) (total_of mtls workers) (main mtls enc workers)
unfolding main
main-Decides mtls enc workers =
    exit-Decides (good_workers mtls enc workers) (total_of mtls workers)
      (gather 0 (results mtls enc workers)) (good_workers_iff mtls enc workers)
      (subst (λ k. Judges (good_workers mtls enc workers) k (gather 0 (results mtls enc workers)))
        (omega arith) (gather-results mtls enc workers 0))
