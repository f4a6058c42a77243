-- ===== src/WsClient/Session/Refines/Waits.antt =====
-- What a wait hears, and what the client shows when it is over.
use nim_vortex.Prelude.{
  ◌≡◌, inl, inr, refl, Bool, true, none, some, List, [], ◌∷◌, ◌++◌, Bool-cases,
}
use mathlib.Core.Path.{subst}
use nim_vortex.WsClient.Session.{Batch, Client, receive, wait_for}
use nim_vortex.WsClient.Session.Refines.{History, hear, hear_batch, Implements}
use nim_vortex.WsClient.Session.Refines.Hears.{Implements-receive}
use nim_vortex.WsClient.Session.Refines.Flags.{receive_all}

pub Implements-receive_all :
    (bs : List Batch) (c : Client) (h : History)
    → Implements c h
    → Implements (receive_all bs c) (hear bs h)
unfolding receive_all hear
Implements-receive_all [] c h i = i
Implements-receive_all (b ∷ bs) c h i =
    Implements-receive_all bs (receive b c) (hear_batch b h) (Implements-receive b c h i)

pub wait_for-returned :
    (flag : Client → Bool) (bs bs' : List Batch) (c c' : Client)
    → wait_for flag bs c ≡ some (c', bs')
    → flag c' ≡ true
unfolding wait_for
wait_for-returned flag [] bs' c c' w = elim (Bool-cases (flag c)) [
  | inl e ↦
      let woke : some (c, []) ≡ some (c', bs') = rw e at w in
      subst (λ k. flag k ≡ true) (cc (woke)) e
  | inr e ↦ let asleep : none ≡ some (c', bs') = rw e at w in cc (asleep)
]
wait_for-returned flag (b ∷ bs) bs' c c' w = elim (Bool-cases (flag c)) [
  | inl e ↦
      let woke : some (c, b ∷ bs) ≡ some (c', bs') = rw e at w in
      subst (λ k. flag k ≡ true) (cc (woke)) e
  | inr e ↦ wait_for-returned flag bs bs' (receive b c) c' (rw e at w)
]

pub hear-append :
    (used more : List Batch) (h : History) → hear (used ++ more) h ≡ hear more (hear used h)
unfolding hear
hear-append [] more h = refl
hear-append (b ∷ used) more h = hear-append used more (hear_batch b h)
