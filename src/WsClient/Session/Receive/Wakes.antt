-- ===== src/WsClient/Session/Receive/Wakes.antt =====
-- A wait for data takes batches, and ends behind the one that brings some.
use nim_vortex.Prelude.{
  ℕ, ◌<◌, ◌≡◌, ◌≢◌, inl, inr, refl, ap, ◌∙◌, Bool, true, false, some, List, [], ◌∷◌, ◌++◌, length,
  arith,
}
use nim_vortex.Prelude.Bytes.{Bytes}
use nim_vortex.WsClient.Session.{Batch, Client, receive, wait_for}
use nim_vortex.WsClient.Session.Receive.Events.{
  batch_data, IsQuiet, Carries, Carries-trans, Carries-receive,
}

-- The batches bring the bytes `d` for the stream `sid`, and none of them comes behind the last.
abbrev pub Delivers : ℕ → Bytes → List Batch → Type 0
Delivers sid d [] = d ≡ []
Delivers sid d (b ∷ bs) =
    IsQuiet sid b × (d ≢ []) × ((e : Bytes) × (d ≡ batch_data sid b ++ e) × Delivers sid e bs)

wait_for-flag :
    (flag : Client → Bool) (bs : List Batch) (c : Client)
    → flag c ≡ true
    → wait_for flag bs c ≡ some (c, bs)
unfolding wait_for
wait_for-flag flag [] c e = rw e refl
wait_for-flag flag (b ∷ bs) c e = rw e refl

wait_for-next :
    (flag : Client → Bool) (b : Batch) (bs : List Batch) (c : Client)
    → flag c ≡ false
    → wait_for flag (b ∷ bs) c ≡ wait_for flag bs (receive b c)
unfolding wait_for
wait_for-next flag b bs c e = rw e refl

-- A wait for data takes some of the batches, and what they bring.
abbrev pub Woken : ℕ → Bytes → List Batch → List Batch → Client → Type 0
Woken sid d bs rest c =
    (c' : Client) × (bs' : List Batch) × (e : Bytes) × (e' : Bytes) × (wait_for (λ k. k.got_data)
        (bs ++ rest) c
      ≡ some (c', bs' ++ rest))
    × Carries sid c e c'
    × (d ≡ e ++ e')
    × Delivers sid e' bs'
    × (length bs' < length bs)

pub wait_for-Woken :
    (sid : ℕ) (d : Bytes) (bs rest : List Batch) (c : Client)
    → c.sid ≡ some sid
    → c.got_data ≡ false
    → d ≢ []
    → Delivers sid d bs
    → Woken sid d bs rest c
wait_for-Woken sid d [] rest c own off some_left h = absurd (some_left h)
wait_for-Woken sid d (b ∷ bs) rest c own off some_left (quiet, _, (e, split, later)) =
    let k = Carries-receive sid b c own quiet in
    elim k.flagged [
      | inl on ↦ (
        receive b c,
        bs,
        batch_data sid b,
        e,
        wait_for-next (λ c. c.got_data) b (bs ++ rest) c off
            ∙ wait_for-flag (λ c. c.got_data) (bs ++ rest) (receive b c) on,
        k,
        split,
        later,
        omega arith,
      )
      | inr (still, empty) ↦
          let same : d ≡ e = split ∙ ap (λ (t : Bytes). t ++ e) empty in
          let (c', bs', d1, d2, woke, k', split', later', less) =
            wait_for-Woken sid e bs rest (receive b c) k.own (still ∙ off)
              (λ n. some_left (same ∙ n)) later in
          (
            c',
            bs',
            d1,
            d2,
            wait_for-next (λ c. c.got_data) b (bs ++ rest) c off ∙ woke,
            rw empty at (Carries-trans sid c (receive b c) c' (batch_data sid b) d1 k k'),
            same ∙ split',
            later',
            omega arith,
          )
    ]
