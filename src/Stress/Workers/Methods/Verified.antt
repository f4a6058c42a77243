-- ===== src/Stress/Workers/Methods/Verified.antt =====
-- Every answer of `w_methods` is verified, and counted with its status when it passes.
use nim_vortex.Prelude.{
  ℕ, suc, ◌<◌, inl, inr, refl, Bool, false, ◌&&◌, ◌||◌, Option, none, some, List, [], ◌∷◌, ◌++◌,
  ◌==◌, length, Bool-cases,
}
use nim_vortex.Prelude.Bytes.{Bytes, codes, equal}
use nim_vortex.Stress.{Counters, Config}
use nim_vortex.Stress.Workers.{
  ◌>>◌, require, bumped, Answer, replied, broken, answered, cycled, in_session, or_raise, left_with,
}
use nim_vortex.Stress.Workers.Judged.{Checks, Judged, Judged-step, Judged-last, Judged-append}
use nim_vortex.Stress.Workers.Drive.{all_of, drive-Judged}
use nim_vortex.Stress.Workers.Requests.{Prepared, echo}
use nim_vortex.Stress.Workers.Requests.Verified.{echo-Checks, cycled-some}
use nim_vortex.Stress.Workers.Requests
use nim_vortex.Stress.Workers.Methods.{
  Round, plaintext, head, options, echoes, round, rounds, once, worker,
}

-- A check, by its request, and the answer.
pub data Check : Type 0 where
  plain : Answer → Check
  echoed : Prepared → Answer → Check
  bare : Answer → Check
  allowed : Answer → Check

unfoldable pub has : (ℕ → Bytes → Bool) → Answer → Bool
has test (broken t) = false
has test (replied st ct body) = test st body

unfoldable pub passes : Check → Bool
passes (plain a) = has (λ st body. st == 200 && equal body (codes "Hello, World!")) a
passes (echoed p a) = Requests.is_verified (p.ctype, p.raw, a)
passes (bare a) = has (λ st body. st == 200 && equal body []) a
passes (allowed a) = has (λ st body. st == 200 || st == 204) a

-- The status that is counted.
unfoldable pub earned : Check → ℕ
earned (plain a) = 200
earned (echoed p a) = 200
earned (bare a) = 200
earned (allowed (broken t)) = 0
earned (allowed (replied st ct body)) = st

abbrev pub rest_checks : Prepared → Round → List Check
rest_checks p r =
    echoed p r.post
    ∷ echoed p r.put
    ∷ echoed p r.delete
    ∷ echoed p r.patch
    ∷ bare r.head
    ∷ allowed r.options
    ∷ []

unfoldable pub round_checks : Option Prepared → Round → List Check
round_checks none r = []
round_checks (some p) r = plain r.get ∷ rest_checks p r

unfoldable pub checks_of : List Prepared → ℕ → List Round → List Check
checks_of prepared k [] = []
checks_of prepared k (r ∷ rs) = round_checks (cycled prepared k) r ++ checks_of prepared (suc k) rs

plaintext-Checks :
    (cfg : Config) (a : Answer) (c : Counters)
    → Checks passes earned cfg (plain a) c (plaintext cfg a c)
unfolding plaintext passes earned has answered require bumped
plaintext-Checks cfg (broken t) c = inr (refl, (t, refl))
plaintext-Checks cfg (replied st ct b) c =
    elim (Bool-cases (st == 200 && equal b (codes "Hello, World!"))) [
      | inl e ↦ rw e (inl (refl, refl))
      | inr e ↦ rw e (inr (refl, (_, refl)))
    ]

head-Checks :
    (cfg : Config) (a : Answer) (c : Counters) → Checks passes earned cfg (bare a) c (head cfg a c)
unfolding head passes earned has answered require bumped
head-Checks cfg (broken t) c = inr (refl, (t, refl))
head-Checks cfg (replied st ct b) c = elim (Bool-cases (st == 200 && equal b [])) [
  | inl e ↦ rw e (inl (refl, refl))
  | inr e ↦ rw e (inr (refl, (_, refl)))
]

options-Checks :
    (cfg : Config) (a : Answer) (c : Counters)
    → Checks passes earned cfg (allowed a) c (options cfg a c)
unfolding options passes earned has answered require bumped
options-Checks cfg (broken t) c = inr (refl, (t, refl))
options-Checks cfg (replied st ct b) c = elim (Bool-cases (st == 200 || st == 204)) [
  | inl e ↦ rw e (inl (refl, refl))
  | inr e ↦ rw e (inr (refl, (_, refl)))
]

abbrev echo_checks : Prepared → List Answer → List Check
echo_checks p [] = []
echo_checks p (a ∷ rest) = echoed p a ∷ echo_checks p rest

echoes-Judged :
    (cfg : Config) (p : Prepared) (answers : List Answer) (c : Counters)
    → Judged passes earned cfg (echo_checks p answers) c (echoes cfg p answers c)
unfolding echoes
echoes-Judged cfg p [] c = refl
echoes-Judged cfg p (a ∷ rest) c =
    Judged-step passes earned cfg (echoed p a) (echo_checks p rest) c (echo cfg p a)
      (echoes cfg p rest) (unfold passes earned in echo-Checks cfg p a c) (echoes-Judged cfg p rest)

round-Judged :
    (cfg : Config) (p : Prepared) (r : Round) (c : Counters)
    → Judged passes earned cfg (round_checks (some p) r) c (round cfg (some p) r c)
unfolding round round_checks
round-Judged cfg p r c =
    let four = r.post ∷ r.put ∷ r.delete ∷ r.patch ∷ [] in
    Judged-step passes earned cfg (plain r.get) (rest_checks p r) c (plaintext cfg r.get)
      (echoes cfg p four >> (head cfg r.head >> options cfg r.options))
      (plaintext-Checks cfg r.get c)
      (λ c'.
        Judged-append passes earned cfg (echo_checks p four) (bare r.head ∷ allowed r.options ∷ [])
          c' (echoes cfg p four c') (head cfg r.head >> options cfg r.options)
          (echoes-Judged cfg p four c')
          (λ c''.
            Judged-step passes earned cfg (bare r.head) (allowed r.options ∷ []) c''
              (head cfg r.head) (options cfg r.options) (head-Checks cfg r.head c'')
              (λ d.
                Judged-last passes earned cfg (allowed r.options) d (options cfg r.options d)
                  (options-Checks cfg r.options d))))

rounds-Judged :
    (cfg : Config) (prepared : List Prepared) (k : ℕ) (rs : List Round) (c : Counters)
    → 0 < length prepared
    → Judged passes earned cfg (checks_of prepared k rs) c (rounds cfg prepared k rs c)
unfolding rounds checks_of
rounds-Judged cfg prepared k [] c p = refl
rounds-Judged cfg prepared k (r ∷ rs) c p =
    let (entry, e) = cycled-some prepared k p in
    rw e (
      Judged-append passes earned cfg (round_checks (some entry) r) (checks_of prepared (suc k) rs)
        c (round cfg (some entry) r c) (rounds cfg prepared (suc k) rs) (round-Judged cfg entry r c)
        (λ c'. rounds-Judged cfg prepared (suc k) rs c' p))

-- Under `drive`, in sessions that open and close well, a worker of `w_methods` checks every answer of each
-- round, in the order GET, POST, PUT, DELETE, PATCH, HEAD, OPTIONS: the GET and the HEAD want a 200 with the
-- greeting and with no body, the four between them the body and the content-type that were sent, the
-- OPTIONS a 200 or a 204 with any body. Each that passes is counted once with its status before the next;
-- the first that does not is raised, and nothing is counted behind it. There are bodies to take.
pub worker-Judged_methods :
    (cfg : Config) (prepared : List Prepared) (sessions : List (List Round)) (c : Counters)
    → 0 < length prepared
    → Judged passes earned cfg
        (all_of (checks_of prepared 0) sessions)
        c
        (worker cfg prepared sessions c)
unfolding worker once in_session or_raise left_with
worker-Judged_methods cfg prepared sessions c p =
    drive-Judged passes earned cfg (checks_of prepared 0) (once cfg prepared none none) sessions c
      (λ rs c'. rounds-Judged cfg prepared 0 rs c' p)
