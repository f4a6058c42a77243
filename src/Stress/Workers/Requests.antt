-- ===== src/Stress/Workers/Requests.antt =====
-- `w_requests` of conformance/stress/client/stress_client.py: one call of `once`. The texts of the Fails are
-- what they are about, without the values.
pub mod Verified
use nim_vortex.Prelude.{
  ℕ, zero, suc, ◌+◌, ◌%◌, ◌<◌, ◌≡◌, ◌⊎◌, inl, inr, refl, Bool, true, false, ◌&&◌, Option, none,
  some, List, [], ◌∷◌, ◌++◌, ◌==◌, length, get_elem?, if◌then◌else◌, arith, Bool-cases,
  Option-cases,
}
use nim_vortex.Prelude.Bytes.{Bytes, codes, equal}
use nim_vortex.Prelude.Text.{lower}
use nim_vortex.Stress.{Counters, Config, other_error, bump}
use nim_vortex.Stress.Workers.{
  Trouble, fault, Result, ok, raises, M, follow, ◌>>=◌, ◌>>◌, finish, require, bumped, Answer,
  replied, broken, answered, cycled, in_session,
}
use nim_vortex.Stress.Workers.Judged.{Checks, Judged, Judged-step, Judged-last, Judged-append}
use nim_vortex.Stress.Workers.Drive.{drive, calls_of}

-- A route of `expected_gets`, and an entry of `prepared`: the content-type, the raw body, the body that is
-- sent, and the headers.
pub record Route : Type 0 where
  pub path : Bytes
  pub want_ct : Bytes
  pub want_body : Bytes

pub record Prepared : Type 0 where
  pub ctype : Bytes
  pub raw : Bytes
  pub body : Bytes
  pub hdrs : List (Bytes × Bytes)

unfoldable pub encoding_header : Bytes → Option Bytes → List (Bytes × Bytes)
encoding_header name none = []
encoding_header name (some v) = (name, v) ∷ []

-- The loop that prepares the bodies, or the SystemExit of `compress`.
unfoldable pub prepare :
    (Bytes → Option (Bytes × Option Bytes))
    → Option Bytes
    → List (Bytes × Bytes)
    → Option (List Prepared)
prepare compress accept [] = some []
prepare compress accept ((ctype, raw) ∷ mix) = elim (compress raw) [
  | none ↦ none
  | some (body, enc) ↦ elim (prepare compress accept mix) [
    | none ↦ none
    | some ps ↦ some (
        record {
          ctype = ctype;
          raw = raw;
          body = body;
          hdrs =
              (codes "content-type", ctype)
              ∷ (encoding_header (codes "content-encoding") enc
                  ++ encoding_header (codes "accept-encoding") accept);
        }
        ∷ ps)
  ]
]

-- The answers of one round.
pub record Round : Type 0 where
  pub get : Answer
  pub post : Answer
  pub put : Answer

unfoldable pub get_route : Config → Route → Answer → M (Unit {0})
get_route cfg route a = do
  (st, ct, b) ← answered a
  require (st == 200) (codes "GET -> status")
  require (equal (lower ct) (lower route.want_ct)) (codes "GET content-type")
  require (equal b route.want_body) (codes "GET body")
  bumped cfg 200

unfoldable pub echo : Config → Prepared → Answer → M (Unit {0})
echo cfg p a = do
  (st, ct, b) ← answered a
  require (st == 200 && equal b p.raw) (codes "/echo -> status or body")
  require (equal (lower ct) (lower p.ctype)) (codes "/echo content-type")
  bumped cfg 200

-- `k % 0`
abbrev pub zero_division : M (Unit {0})
zero_division c = (c, raises (fault (other_error (codes "ZeroDivisionError"))))

unfoldable pub round : Config → Option Route → Option Prepared → Round → M (Unit {0})
round cfg none p r = zero_division
round cfg (some route) none r = get_route cfg route r.get >> zero_division
round cfg (some route) (some p) r = do
  get_route cfg route r.get
  echo cfg p r.post
  echo cfg p r.put

-- The loop, for the rounds that begin before the deadline, from the `k`th on.
unfoldable pub rounds : Config → List Route → List Prepared → ℕ → List Round → M (Unit {0})
rounds cfg gets prepared k [] = finish
rounds cfg gets prepared k (r ∷ rs) = do
  round cfg (cycled gets k) (cycled prepared k) r
  rounds cfg gets prepared (suc k) rs

unfoldable pub once :
    Config
    → List Route
    → List Prepared
    → Option Trouble
    → Option Trouble
    → List Round
    → M (Unit {0})
once cfg gets prepared opening leaving rs =
    in_session opening leaving (rounds cfg gets prepared 0 rs)

-- A check: the content-type and the body that are wanted, and the answer.
abbrev pub Check : Type 0
Check = Bytes × Bytes × Answer

unfoldable pub is_verified : Check → Bool
is_verified (ct, body, broken t) = false
is_verified (ct, body, replied st ct' body') =
    st == 200 && (equal (lower ct') (lower ct) && equal body' body)

-- The checks of a round, and of the rounds from the `k`th on.
unfoldable pub round_checks : Option Route → Option Prepared → Round → List Check
round_checks none p r = []
round_checks (some route) none r = []
round_checks (some route) (some p) r =
    (route.want_ct, route.want_body, r.get)
    ∷ (p.ctype, p.raw, r.post)
    ∷ (p.ctype, p.raw, r.put)
    ∷ []

unfoldable pub checks_of : List Route → List Prepared → ℕ → List Round → List Check
checks_of gets prepared k [] = []
checks_of gets prepared k (r ∷ rs) =
    round_checks (cycled gets k) (cycled prepared k) r ++ checks_of gets prepared (suc k) rs

-- One of the workers: its sessions, each with the answers to its rounds, under `drive`.
unfoldable pub worker : Config → List Route → List Prepared → List (List Round) → M (Unit {0})
worker cfg gets prepared sessions = drive (calls_of (once cfg gets prepared none none) sessions)
