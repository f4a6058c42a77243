-- ===== src/Stress/Workers/Drive.antt =====
-- `drive` of conformance/stress/client/stress_client.py: a worker is called until the deadline, and what it
-- raises is made a Fail when it is the connection's.
use nim_vortex.Prelude.{ℕ, ◌≡◌, inl, inr, refl, Bool, List, [], ◌∷◌, ◌++◌}
use nim_vortex.Prelude.Bytes.{codes}
use nim_vortex.Stress.{Counters, Config, Fault, fail, bump}
use nim_vortex.Stress.Workers.{
  Trouble, pin_error, transport_error, fault, Result, ok, raises, M, follow, ◌>>◌, finish,
}
use nim_vortex.Stress.Workers.Judged.{Judged, Judged-append}

-- What the two handlers raise instead.
unfoldable pub as_fail : Trouble → Fault
as_fail (pin_error text) = fail (codes "protocol pin: " ++ text)
as_fail (transport_error name text) =
    fail (codes "transport error (" ++ (name ++ (codes "): " ++ text)))
as_fail (fault f) = f

unfoldable pub handled : Counters × Result (Unit {0}) → Counters × Result (Unit {0})
handled (c, ok u) = (c, ok u)
handled (c, raises t) = (c, raises (fault (as_fail t)))

-- `drive(worker)`, for the calls that begin before the deadline.
unfoldable pub drive : List (M (Unit {0})) → M (Unit {0})
drive [] = finish
drive (worker ∷ calls) = (λ c. handled (worker c)) >> drive calls

-- What each call makes, and the calls.
abbrev pub all_of : {S X : Type 0} → (S → List X) → List S → List X
all_of made [] = []
all_of made (s ∷ ss) = made s ++ all_of made ss

abbrev pub calls_of : {S : Type 0} → (S → M (Unit {0})) → List S → List (M (Unit {0}))
calls_of call [] = []
calls_of call (s ∷ ss) = call s ∷ calls_of call ss

-- Nothing that `drive` raises is an exception of the connection's own.
pub IsFault : Result (Unit {0}) → Type 0
IsFault (ok u) = Unit
IsFault (raises t) = (f : Fault) × (t ≡ fault f)

handled-IsFault :
    (r : Counters × Result (Unit {0})) (k : M (Unit {0}))
    → ((c : Counters) → IsFault (k c).1)
    → IsFault (follow (handled r) (λ _. k)).1
unfolding handled IsFault
handled-IsFault (c, ok u) k h = h c
handled-IsFault (c, raises t) k h = (as_fail t, refl)

-- `drive` ends well or with a Fail, or with what its worker raised that is no pin or transport error.
pub drive-IsFault : (calls : List (M (Unit {0}))) (c : Counters) → IsFault (drive calls c).1
unfolding drive IsFault
drive-IsFault [] c = tt
drive-IsFault (worker ∷ calls) c = handled-IsFault (worker c) (drive calls) (drive-IsFault calls)

module _ {X : Type 0} (holds : X → Bool) (earns : X → ℕ) (cfg : Config) where
  handled-Judged :
      (xs : List X) (c : Counters) (r : Counters × Result (Unit {0}))
      → Judged holds earns cfg xs c r
      → Judged holds earns cfg xs c (handled r)
  unfolding handled
  handled-Judged [] c r h = rw h refl
  handled-Judged (x ∷ xs) c r (inl (good, h)) =
      inl (good, handled-Judged xs (bump cfg.mixed cfg.tag (earns x) 1 c) r h)
  handled-Judged (x ∷ xs) c r (inr (bad, (t, e))) = inr (bad, (fault (as_fail t), rw e refl))

  -- The checks of the calls that are made, in turn, when each call makes its own.
  pub drive-Judged :
      {S : Type 0} (made : S → List X) (call : S → M (Unit {0})) (ss : List S) (c : Counters)
      → ((s : S) (c : Counters) → Judged holds earns cfg (made s) c (call s c))
      → Judged holds earns cfg (all_of made ss) c (drive (calls_of call ss) c)
  unfolding drive
  drive-Judged made call [] c each = refl
  drive-Judged made call (s ∷ ss) c each =
      Judged-append holds earns cfg (made s) (all_of made ss) c (handled (call s c))
        (drive (calls_of call ss)) (handled-Judged (made s) c (call s c) (each s c))
        (λ c'. drive-Judged made call ss c' each)
