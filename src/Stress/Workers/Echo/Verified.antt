-- ===== src/Stress/Workers/Echo/Verified.antt =====
-- Every message of `w_ws` comes back as it was sent, or the worker raises.
use nim_vortex.Prelude.{
  ℕ, suc, ◌≡◌, inl, inr, refl, ap, Bool, true, false, none, List, [], ◌∷◌, ◌==◌, if◌then◌else◌,
  Bool-cases,
}
use mathlib.Core.Path.{subst}
use nim_vortex.Prelude.Bytes.{Bytes, codes}
use nim_vortex.Stress.{Counters, Config, bump}
use nim_vortex.Stress.Workers.{M, ◌>>◌, require, bumped, in_session, or_raise, left_with}
use nim_vortex.Stress.Workers.Judged.{Judged}
use nim_vortex.Stress.Workers.Drive.{all_of, calls_of, drive-Judged}
use nim_vortex.Stress.Workers.Echo.{
  Heard, message, lost, heard, sent, is_echo, echoing, once, worker,
}

-- A check: the message that was sent, and what was heard.
pub data Check : Type 0 where
  echo : Bytes → Heard → Check

unfoldable pub passes : Check → Bool
passes (echo msg (lost t)) = false
passes (echo msg (message op payload)) = is_echo msg op payload

unfoldable pub checks_of : ℕ → ℕ → List Heard → List Check
checks_of i n [] = []
checks_of i n (h ∷ hs) = echo (sent i n) h ∷ checks_of i (suc n) hs

echoing-Judged :
    (cfg : Config) (i n : ℕ) (hs : List Heard) (c : Counters)
    → Judged passes (λ x. 200) cfg (checks_of i n hs) c (echoing cfg i n hs c)
unfolding echoing checks_of passes heard require bumped
echoing-Judged cfg i n [] c = refl
echoing-Judged cfg i n (lost t ∷ hs) c = inr (refl, (t, refl))
echoing-Judged cfg i n (message op payload ∷ hs) c =
    elim (Bool-cases (is_echo (sent i n) op payload)) [
      | inl e ↦ rw e (inl (refl, echoing-Judged cfg i (suc n) hs (bump cfg.mixed cfg.tag 200 1 c)))
      | inr e ↦ rw e (inr (refl, (_, refl)))
    ]

-- What sessions whose handshakes succeed hear.
abbrev pub opened : List (List Heard) → List (ℕ × List Heard)
opened [] = []
opened (hs ∷ rest) = (200, hs) ∷ opened rest

if-either :
    (b : Bool) (m : M (Unit {0}))
    → m ≡ (if b then require (200 == 200) (codes "ws-h3 handshake") >> m else m)
unfolding require
if-either true m = refl
if-either false m = refl

once-Judged_echo :
    (cfg : Config) (i : ℕ) (hs : List Heard) (c : Counters)
    → Judged passes (λ x. 200) cfg (checks_of i 0 hs) c (once cfg i none none 200 hs c)
unfolding once in_session or_raise left_with
once-Judged_echo cfg i hs c =
    subst (λ m. Judged passes (λ x. 200) cfg (checks_of i 0 hs) c (m c))
      (if-either cfg.is_h3 (echoing cfg i 0 hs)) (echoing-Judged cfg i 0 hs c)

calls_of-opened :
    (cfg : Config) (i : ℕ) (sessions : List (List Heard))
    → calls_of (λ s. once cfg i none none s.0 s.1) (opened sessions)
      ≡ calls_of (once cfg i none none 200) sessions
calls_of-opened cfg i [] = refl
calls_of-opened cfg i (hs ∷ rest) =
    ap (λ cs. once cfg i none none 200 hs ∷ cs) (calls_of-opened cfg i rest)

-- Under `drive`, in sessions that open and close well and whose handshake over HTTP/3 is a 200, the worker
-- `i` of `w_ws` checks every message, numbered from 0 in each session: it passes just when it is a text that
-- equals the one sent. Each that passes is counted once as a 200 before the next is sent; the first that
-- does not is raised, and nothing is counted behind it.
pub worker-Judged_echo :
    (cfg : Config) (i : ℕ) (sessions : List (List Heard)) (c : Counters)
    → Judged passes
        (λ x. 200)
        cfg
        (all_of (checks_of i 0) sessions)
        c
        (worker cfg i (opened sessions) c)
unfolding worker
worker-Judged_echo cfg i sessions c = rw (calls_of-opened cfg i sessions) (
    drive-Judged passes (λ x. 200) cfg (checks_of i 0) (once cfg i none none 200) sessions c
      (once-Judged_echo cfg i))
