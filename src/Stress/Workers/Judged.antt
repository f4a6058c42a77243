-- ===== src/Stress/Workers/Judged.antt =====
-- A run of checks: each that holds is counted before the next begins, and the first that fails is raised.
use nim_vortex.Prelude.{ℕ, ◌≡◌, ◌⊎◌, inl, inr, refl, Bool, true, false, List, [], ◌∷◌, ◌++◌}
use nim_vortex.Stress.{Counters, Config, bump}
use nim_vortex.Stress.Workers.{Trouble, Result, ok, raises, M, follow, ◌>>◌}

-- What each check needs to hold, and the status it counts as.
module _ {X : Type 0} (holds : X → Bool) (earns : X → ℕ) (cfg : Config) where
  -- A step that makes one check.
  abbrev pub Checks : X → Counters → Counters × Result (Unit {0}) → Type 0
  Checks x c r =
      ((holds x ≡ true) × (r ≡ (bump cfg.mixed cfg.tag (earns x) 1 c, ok tt)))
      ⊎ ((holds x ≡ false) × ((t : Trouble) × (r ≡ (c, raises t))))

  -- A run that makes the checks in turn.
  abbrev pub Judged : List X → Counters → Counters × Result (Unit {0}) → Type 0
  Judged [] c r = r ≡ (c, ok tt)
  Judged (x ∷ xs) c r =
      ((holds x ≡ true) × Judged xs (bump cfg.mixed cfg.tag (earns x) 1 c) r)
      ⊎ ((holds x ≡ false) × ((t : Trouble) × (r ≡ (c, raises t))))

  pub Judged-step :
      (x : X) (xs : List X) (c : Counters) (m k : M (Unit {0}))
      → Checks x c (m c)
      → ((c' : Counters) → Judged xs c' (k c'))
      → Judged (x ∷ xs) c ((m >> k) c)
  Judged-step x xs c m k (inl (good, e)) next =
      inl (good, rw e (next (bump cfg.mixed cfg.tag (earns x) 1 c)))
  Judged-step x xs c m k (inr (bad, (t, e))) next = inr (bad, (t, rw e refl))

  pub Judged-append :
      (xs ys : List X) (c : Counters) (r : Counters × Result (Unit {0})) (k : M (Unit {0}))
      → Judged xs c r
      → ((c' : Counters) → Judged ys c' (k c'))
      → Judged (xs ++ ys) c (follow r (λ _. k))
  Judged-append [] ys c r k h next = rw h (next c)
  Judged-append (x ∷ xs) ys c r k (inr (bad, (t, e))) next = inr (bad, (t, rw e refl))
  Judged-append (x ∷ xs) ys c r k (inl (good, h)) next =
      inl (good, Judged-append xs ys (bump cfg.mixed cfg.tag (earns x) 1 c) r k h next)

  pub Judged-last :
      (x : X) (c : Counters) (r : Counters × Result (Unit {0})) → Checks x c r → Judged (x ∷ []) c r
  Judged-last x c r (inl h) = inl h
  Judged-last x c r (inr h) = inr h
