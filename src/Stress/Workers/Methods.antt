-- ===== src/Stress/Workers/Methods.antt =====
-- `w_methods` of conformance/stress/client/stress_client.py: one call of `once`.
pub mod Verified
use nim_vortex.Prelude.{
  ℕ, suc, Bool, true, false, ◌&&◌, ◌||◌, Option, none, some, List, [], ◌∷◌, ◌++◌, ◌==◌,
  if◌then◌else◌,
}
use nim_vortex.Prelude.Bytes.{Bytes, codes, equal}
use nim_vortex.Prelude.Text.{lower}
use nim_vortex.Stress.{Counters, Config}
use nim_vortex.Stress.Workers.{
  Trouble, M, follow, ◌>>=◌, ◌>>◌, finish, require, bumped, Answer, replied, broken, answered,
  cycled, in_session,
}
use nim_vortex.Stress.Workers.Requests.{Prepared, echo, zero_division}
use nim_vortex.Stress.Workers.Drive.{drive, calls_of}

-- The answers of one round, in the order of the requests.
pub record Round : Type 0 where
  pub get : Answer
  pub post : Answer
  pub put : Answer
  pub delete : Answer
  pub patch : Answer
  pub head : Answer
  pub options : Answer

unfoldable pub plaintext : Config → Answer → M (Unit {0})
plaintext cfg a = do
  (st, ct, b) ← answered a
  require (st == 200 && equal b (codes "Hello, World!")) (codes "GET /plaintext")
  bumped cfg 200

unfoldable pub head : Config → Answer → M (Unit {0})
head cfg a = do
  (st, ct, b) ← answered a
  require (st == 200 && equal b []) (codes "HEAD /echo")
  bumped cfg 200

unfoldable pub options : Config → Answer → M (Unit {0})
options cfg a = do
  (st, ct, b) ← answered a
  require (st == 200 || st == 204) (codes "OPTIONS /echo")
  bumped cfg st

unfoldable pub echoes : Config → Prepared → List Answer → M (Unit {0})
echoes cfg p [] = finish
echoes cfg p (a ∷ rest) = echo cfg p a >> echoes cfg p rest

unfoldable pub round : Config → Option Prepared → Round → M (Unit {0})
round cfg none r = plaintext cfg r.get >> zero_division
round cfg (some p) r = do
  plaintext cfg r.get
  echoes cfg p (r.post ∷ r.put ∷ r.delete ∷ r.patch ∷ [])
  head cfg r.head
  options cfg r.options

unfoldable pub rounds : Config → List Prepared → ℕ → List Round → M (Unit {0})
rounds cfg prepared k [] = finish
rounds cfg prepared k (r ∷ rs) = do round cfg (cycled prepared k) r; rounds cfg prepared (suc k) rs

unfoldable pub once :
    Config → List Prepared → Option Trouble → Option Trouble → List Round → M (Unit {0})
once cfg prepared opening leaving rs = in_session opening leaving (rounds cfg prepared 0 rs)

-- One of the workers: its sessions, each with the answers to its rounds, under `drive`.
unfoldable pub worker : Config → List Prepared → List (List Round) → M (Unit {0})
worker cfg prepared sessions = drive (calls_of (once cfg prepared none none) sessions)
