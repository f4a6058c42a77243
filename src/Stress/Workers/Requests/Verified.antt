-- ===== src/Stress/Workers/Requests/Verified.antt =====
-- Every answer of `w_requests` is verified, and counted when it passes.
use nim_vortex.Prelude.{
  ℕ, zero, suc, ◌%◌, ◌<◌, ◌≡◌, inl, inr, refl, none, some, List, [], ◌∷◌, ◌==◌, length, get_elem?,
  arith, Bool-cases,
}
use nim_vortex.Prelude.Bytes.{equal}
use nim_vortex.Prelude.Text.{lower}
use nim_vortex.Stress.{Counters, Config}
use nim_vortex.Stress.Workers.{
  ◌>>◌, require, bumped, Answer, replied, broken, answered, cycled, in_session, or_raise, left_with,
}
use nim_vortex.Stress.Workers.Judged.{Checks, Judged, Judged-step, Judged-last, Judged-append}
use nim_vortex.Stress.Workers.Drive.{all_of, drive-Judged}
use nim_vortex.Stress.Workers.Requests.{
  worker, Route, Prepared, Round, get_route, echo, round, rounds, once, is_verified, round_checks,
  checks_of,
}

get_route-Checks :
    (cfg : Config) (route : Route) (a : Answer) (c : Counters)
    → Checks is_verified
        (λ x. 200)
        cfg
        (route.want_ct, route.want_body, a)
        c
        (get_route cfg route a c)
unfolding get_route is_verified answered require bumped
get_route-Checks cfg route (broken t) c = inr (refl, (t, refl))
get_route-Checks cfg route (replied st ct b) c = elim (Bool-cases (st == 200)) [
  | inr e ↦ rw e (inr (refl, (_, refl)))
  | inl e ↦ elim (Bool-cases (equal (lower ct) (lower route.want_ct))) [
    | inr e' ↦ rw (e, e') (inr (refl, (_, refl)))
    | inl e' ↦ elim (Bool-cases (equal b route.want_body)) [
      | inr e'' ↦ rw (e, e', e'') (inr (refl, (_, refl)))
      | inl e'' ↦ rw (e, e', e'') (inl (refl, refl))
    ]
  ]
]

pub echo-Checks :
    (cfg : Config) (p : Prepared) (a : Answer) (c : Counters)
    → Checks is_verified (λ x. 200) cfg (p.ctype, p.raw, a) c (echo cfg p a c)
unfolding echo is_verified answered require bumped
echo-Checks cfg p (broken t) c = inr (refl, (t, refl))
echo-Checks cfg p (replied st ct b) c = elim (Bool-cases (st == 200)) [
  | inr e ↦ rw e (inr (refl, (_, refl)))
  | inl e ↦ elim (Bool-cases (equal (lower ct) (lower p.ctype))) [
    | inr e' ↦ elim (Bool-cases (equal b p.raw)) [
      | inr e'' ↦ rw (e, e', e'') (inr (refl, (_, refl)))
      | inl e'' ↦ rw (e, e', e'') (inr (refl, (_, refl)))
    ]
    | inl e' ↦ elim (Bool-cases (equal b p.raw)) [
      | inr e'' ↦ rw (e, e', e'') (inr (refl, (_, refl)))
      | inl e'' ↦ rw (e, e', e'') (inl (refl, refl))
    ]
  ]
]

get_elem?-some {ℓ} :
    {A : Type ℓ} (xs : List A) (i : ℕ) → i < length xs → (x : A) × (get_elem? xs i ≡ some x)
get_elem?-some [] i h = absurd (omega arith)
get_elem?-some (x ∷ xs) zero h = (x, refl)
get_elem?-some (x ∷ xs) (suc i) h = get_elem?-some xs i (omega arith)

pub cycled-some {ℓ} :
    {A : Type ℓ} (xs : List A) (k : ℕ) → 0 < length xs → (x : A) × (cycled xs k ≡ some x)
unfolding cycled
cycled-some xs k h = get_elem?-some xs (k % length xs) (grind arith)

round-Judged :
    (cfg : Config) (route : Route) (p : Prepared) (r : Round) (c : Counters)
    → Judged is_verified
        (λ x. 200)
        cfg
        (round_checks (some route) (some p) r)
        c
        (round cfg (some route) (some p) r c)
unfolding round round_checks
round-Judged cfg route p r c =
    Judged-step is_verified (λ x. 200) cfg (route.want_ct, route.want_body, r.get)
      ((p.ctype, p.raw, r.post) ∷ (p.ctype, p.raw, r.put) ∷ []) c (get_route cfg route r.get)
      (echo cfg p r.post >> echo cfg p r.put) (get_route-Checks cfg route r.get c)
      (λ c'.
        Judged-step is_verified (λ x. 200) cfg (p.ctype, p.raw, r.post)
          ((p.ctype, p.raw, r.put) ∷ []) c' (echo cfg p r.post) (echo cfg p r.put)
          (echo-Checks cfg p r.post c')
          (λ c''.
            Judged-last is_verified (λ x. 200) cfg (p.ctype, p.raw, r.put) c''
              (echo cfg p r.put c'') (echo-Checks cfg p r.put c'')))

rounds-Judged :
    (cfg : Config) (gets : List Route) (prepared : List Prepared) (k : ℕ) (rs : List Round)
    (c : Counters)
    → 0 < length gets
    → 0 < length prepared
    → Judged is_verified
        (λ x. 200)
        cfg
        (checks_of gets prepared k rs)
        c
        (rounds cfg gets prepared k rs c)
unfolding rounds checks_of
rounds-Judged cfg gets prepared k [] c g p = refl
rounds-Judged cfg gets prepared k (r ∷ rs) c g p =
    let (route, e) = cycled-some gets k g in
    let (entry, e') = cycled-some prepared k p in
    rw (e, e')
      (Judged-append is_verified (λ x. 200) cfg (round_checks (some route) (some entry) r)
        (checks_of gets prepared (suc k) rs) c (round cfg (some route) (some entry) r c)
        (rounds cfg gets prepared (suc k) rs) (round-Judged cfg route entry r c)
        (λ c'. rounds-Judged cfg gets prepared (suc k) rs c' g p))

-- Under `drive`, in sessions that open and close well, a worker of `w_requests` checks every answer: in each
-- round the route and then the two echoes, with the routes and the bodies taken in turn from the first at
-- the start of each session. An answer passes just when its status is 200, its body is the one wanted, and
-- its content-type is the one wanted but for case. Each that passes is counted once as a 200 before the
-- next; the first that does not is raised, and nothing is counted behind it. There are routes and bodies to
-- take.
pub worker-Judged :
    (cfg : Config) (gets : List Route) (prepared : List Prepared) (sessions : List (List Round))
    (c : Counters)
    → 0 < length gets
    → 0 < length prepared
    → Judged is_verified
        (λ x. 200)
        cfg
        (all_of (checks_of gets prepared 0) sessions)
        c
        (worker cfg gets prepared sessions c)
unfolding worker once in_session or_raise left_with
worker-Judged cfg gets prepared sessions c g p =
    drive-Judged is_verified (λ x. 200) cfg (checks_of gets prepared 0)
      (once cfg gets prepared none none) sessions c
      (λ rs c'. rounds-Judged cfg gets prepared 0 rs c' g p)
