-- ===== src/Interop/Checks.antt =====
-- What the client's checks come to, taken together: the result of a run counts the requests just when
-- every check holds.
use nim_vortex.Prelude.{
  ℕ, suc, ◌+◌, ◌≡◌, refl, ap, Bool, true, false, ◌&&◌, List, [], ◌∷◌, ◌++◌, ◌==◌, length, arith,
}
use nim_vortex.Prelude.Bytes.{Bytes, codes, equal}
use mathlib.Core.Path.{subst}
use nim_vortex.Prelude.Text.{show}
use nim_vortex.Interop.{
  checked, no_method, not_encoded, Answer, replied, broken, Result, counted, raises, methods,
  is_text, unless, echoes_method, each_method, names_subject, whoami, Round, rounds, worker, gather,
  results,
}

-- The checks of an answer of /echo taken together, and those of /whoami.
unfoldable pub is_good : Bytes → Bytes → Answer → Bool
is_good enc m (broken text) = false
is_good enc m (replied r) =
    r.status == 200
    && (equal r.version (codes "HTTP/2") && (is_text enc r.encoding && echoes_method m r))

unfoldable pub all_good : Bytes → (Bytes → Answer) → List Bytes → Bool
all_good enc answer [] = true
all_good enc answer (m ∷ ms) = is_good enc m (answer m) && all_good enc answer ms

unfoldable pub is_named : Bool → Answer → Bool
is_named false a = true
is_named true (broken text) = false
is_named true (replied r) = names_subject r

unfoldable pub good_rounds : Bool → Bytes → List Round → Bool
good_rounds mtls enc [] = true
good_rounds mtls enc (r ∷ rs) =
    all_good enc r.echo methods && (is_named mtls r.subject && good_rounds mtls enc rs)

unfoldable pub good_workers : Bool → Bytes → List (List Round) → Bool
good_workers mtls enc [] = true
good_workers mtls enc (w ∷ ws) = good_rounds mtls enc w && good_workers mtls enc ws

-- The requests of a round besides the seven of /echo, and those of a worker and of all workers.
unfoldable pub extra : Bool → ℕ
extra true = 1
extra false = 0

unfoldable pub requests_of : Bool → List Round → ℕ
requests_of mtls [] = 0
requests_of mtls (r ∷ rs) = 7 + extra mtls + requests_of mtls rs

unfoldable pub total_of : Bool → List (List Round) → ℕ
total_of mtls [] = 0
total_of mtls (w ∷ ws) = requests_of mtls w + total_of mtls ws

-- A result that counts `n` if `good`, and is an error if not.
abbrev pub Judges : Bool → ℕ → Result → Type 0
Judges true n r = r ≡ counted n
Judges false n r = (text : Bytes) × (r ≡ raises text)

unless-Judges :
    (b good : Bool) (text : Bytes) (n : ℕ) (r : Result)
    → Judges good n r
    → Judges (b && good) n (unless b text r)
unfolding unless
unless-Judges true good text n r h = h
unless-Judges false good text n r h = (text, refl)

and_assoc : (a b c : Bool) → a && (b && c) ≡ (a && b) && c
and_assoc true b c = refl
and_assoc false b c = refl

regroup : (a b c d e : Bool) → a && (b && (c && (d && e))) ≡ (a && (b && (c && d))) && e
regroup true true true d e = refl
regroup true true false d e = refl
regroup true false c d e = refl
regroup false b c d e = refl

checked-Judges :
    (enc m : Bytes) (a : Answer) (good : Bool) (n : ℕ) (rest : Result)
    → Judges good n rest
    → Judges (is_good enc m a && good) n (checked enc m a rest)
unfolding checked is_good
checked-Judges enc m (broken text) good n rest h = (text, refl)
checked-Judges enc m (replied r) good n rest h =
    let v = equal r.version (codes "HTTP/2") in
    let e = is_text enc r.encoding in
    let k = echoes_method m r in
    subst (λ b. Judges b n (checked enc m (replied r) rest)) (regroup (r.status == 200) v e k good)
      (unless-Judges (r.status == 200) (v && (e && (k && good)))
        (m ++ (codes " status " ++ show r.status)) n _
        (unless-Judges v (e && (k && good)) (m ++ (codes " not HTTP/2: " ++ r.version)) n _ (
          unless-Judges e (k && good) (not_encoded m enc r.encoding) n _
            (unless-Judges k good (no_method m) n rest h))))

each_method-Judges :
    (enc : Bytes) (answer : Bytes → Answer) (ms : List Bytes) (n m : ℕ) (rest : ℕ → Result)
    (good : Bool)
    → Judges good m (rest (n + length ms))
    → Judges (all_good enc answer ms && good) m (each_method enc answer ms n rest)
unfolding all_good each_method
each_method-Judges enc answer [] n m rest good h =
    subst (λ k. Judges good m (rest k)) (omega arith) h
each_method-Judges enc answer (k ∷ ms) n m rest good h =
    subst (λ b. Judges b m (each_method enc answer (k ∷ ms) n rest))
      (and_assoc (is_good enc k (answer k)) (all_good enc answer ms) good)
      (checked-Judges enc k (answer k) (all_good enc answer ms && good) m
        (each_method enc answer ms (suc n) rest)
        (each_method-Judges enc answer ms (suc n) m rest good
          (subst (λ i. Judges good m (rest i)) (omega arith) h)))

whoami-Judges :
    (mtls : Bool) (a : Answer) (n m : ℕ) (rest : ℕ → Result) (good : Bool)
    → Judges good m (rest (n + extra mtls))
    → Judges (is_named mtls a && good) m (whoami mtls a n rest)
unfolding is_named whoami extra
whoami-Judges false a n m rest good h = subst (λ i. Judges good m (rest i)) (omega arith) h
whoami-Judges true (broken text) n m rest good h = (text, refl)
whoami-Judges true (replied r) n m rest good h =
    unless-Judges (names_subject r) good _ m (rest (suc n))
      (subst (λ i. Judges good m (rest i)) (omega arith) h)

rounds-Judges :
    (mtls : Bool) (enc : Bytes) (rs : List Round) (n : ℕ)
    → Judges (good_rounds mtls enc rs) (n + requests_of mtls rs) (rounds mtls enc rs n)
unfolding good_rounds requests_of rounds
rounds-Judges mtls enc [] n = ap counted (omega arith)
rounds-Judges mtls enc (r ∷ rs) n = each_method-Judges enc r.echo methods n _ _ _ (
    whoami-Judges mtls r.subject (n + 7) _ (rounds mtls enc rs) (good_rounds mtls enc rs) (
      subst (λ k. Judges (good_rounds mtls enc rs) k (rounds mtls enc rs (n + 7 + extra mtls)))
        (omega arith) (rounds-Judges mtls enc rs (n + 7 + extra mtls))))

gathered :
    (mtls : Bool) (enc : Bytes) (ws : List (List Round)) (total : ℕ) (good : Bool) (n : ℕ)
    (r : Result)
    → Judges good n r
    → Judges
        (good_workers mtls enc ws)
        (total + n + total_of mtls ws)
        (gather (total + n) (results mtls enc ws))
    → Judges
        (good && good_workers mtls enc ws)
        (total + n + total_of mtls ws)
        (gather total (r ∷ results mtls enc ws))
unfolding gather
gathered mtls enc ws total true n r h next = rw h next
gathered mtls enc ws total false n r (text, e) next = (text, rw e refl)

pub gather-results :
    (mtls : Bool) (enc : Bytes) (ws : List (List Round)) (total : ℕ)
    → Judges
        (good_workers mtls enc ws)
        (total + total_of mtls ws)
        (gather total (results mtls enc ws))
unfolding good_workers total_of results worker
gather-results mtls enc [] total = unfold gather in ap counted (omega arith)
gather-results mtls enc (w ∷ ws) total =
    let n = requests_of mtls w in
    subst
      (λ k. Judges (good_workers mtls enc (w ∷ ws)) k (gather total (results mtls enc (w ∷ ws))))
      (omega arith)
      (gathered mtls enc ws total (good_rounds mtls enc w) n (rounds mtls enc w 0)
        (subst (λ k. Judges (good_rounds mtls enc w) k (rounds mtls enc w 0)) (omega arith)
          (rounds-Judges mtls enc w 0))
        (gather-results mtls enc ws (total + n)))
