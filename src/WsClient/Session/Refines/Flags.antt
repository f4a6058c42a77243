-- ===== src/WsClient/Session/Refines/Flags.antt =====
-- A flag that is still down tells that what it stands for has not changed.
use nim_vortex.Prelude.{
  ℕ, suc, ◌+◌, ◌<◌, ◌≡◌, ◌⊎◌, inl, inr, refl, sym, ap, ◌∙◌, Bool, true, false, Option, none, some,
  List, [], ◌∷◌, length, arith, Bool-cases,
}
use nim_vortex.WsClient.Session.{
  Event, headers_received, data_received, Batch, Client, is_own, on_event, on_events, on_stop,
  quic_event_received, receive, wait_for,
}

-- The client after all the batches.
unfoldable pub receive_all : List Batch → Client → Client
receive_all [] c = c
receive_all (b ∷ bs) c = receive_all bs (receive b c)

-- A wait that times out has heard everything, and its flag is still down.
pub wait_for-none :
    (flag : Client → Bool) (bs : List Batch) (c : Client)
    → wait_for flag bs c ≡ none
    → flag (receive_all bs c) ≡ false
unfolding wait_for receive_all
wait_for-none flag [] c w = elim (Bool-cases (flag c)) [
  | inl e ↦ let woke : some (c, []) ≡ none = rw e at w in cc (woke)
  | inr e ↦ e
]
wait_for-none flag (b ∷ bs) c w = elim (Bool-cases (flag c)) [
  | inl e ↦ let woke : some (c, b ∷ bs) ≡ none = rw e at w in cc (woke)
  | inr e ↦ wait_for-none flag bs (receive b c) (rw e at w)
]

pub wait_for-down :
    (flag : Client → Bool) (b : Batch) (bs : List Batch) (c : Client)
    → flag c ≡ false
    → wait_for flag (b ∷ bs) c ≡ wait_for flag bs (receive b c)
unfolding wait_for
wait_for-down flag b bs c e = rw e refl

abbrev left_of : Option (Client × List Batch) → ℕ
left_of none = 0
left_of (some (c, bs)) = length bs

length-wait_for :
    (flag : Client → Bool) (bs bs' : List Batch) (c c' : Client)
    → wait_for flag bs c ≡ some (c', bs')
    → length bs' < length bs + 1
unfolding wait_for
length-wait_for flag [] bs' c c' w = elim (Bool-cases (flag c)) [
  | inl e ↦
      let woke : some (c, []) ≡ some (c', bs') = rw e at w in
      let same : length bs' ≡ 0 = ap (λ (o : Option (Client × List Batch)). left_of o) (sym woke) in
      omega (arith, same)
  | inr e ↦ let asleep : none ≡ some (c', bs') = rw e at w in cc (asleep)
]
length-wait_for flag (b ∷ bs) bs' c c' w = elim (Bool-cases (flag c)) [
  | inl e ↦
      let woke : some (c, b ∷ bs) ≡ some (c', bs') = rw e at w in
      let same : length bs' ≡ suc (length bs) =
        ap (λ (o : Option (Client × List Batch)). left_of o) (sym woke) in
      omega (arith, same)
  | inr e ↦ omega (arith, length-wait_for flag bs bs' (receive b c) c' (rw e at w))
]

-- A wait whose flag is down takes a batch at least.
pub length-wait_for_down :
    (flag : Client → Bool) (bs bs' : List Batch) (c c' : Client)
    → flag c ≡ false
    → wait_for flag bs c ≡ some (c', bs')
    → length bs' < length bs
unfolding wait_for
length-wait_for_down flag [] bs' c c' down w =
    let asleep : none ≡ some (c', bs') = rw down at w in cc (asleep)
length-wait_for_down flag (b ∷ bs) bs' c c' down w =
    omega (arith, length-wait_for flag bs bs' (receive b c) c' (rw down at w))

module _ {A : Type 0} (flag : Client → Bool) (field : Client → A) where
  abbrev pub Flagged : Client → Client → Type 0
  Flagged c c' = (flag c' ≡ true) ⊎ ((flag c' ≡ flag c) × (field c' ≡ field c))

  pub Flagged-trans : (c c' c'' : Client) → Flagged c c' → Flagged c' c'' → Flagged c c''
  Flagged-trans c c' c'' h (inl up) = inl up
  Flagged-trans c c' c'' (inl up) (inr (same, kept)) = inl (same ∙ up)
  Flagged-trans c c' c'' (inr (same, kept)) (inr (same', kept')) = inr (same' ∙ same, kept' ∙ kept)

  module _ (event : (e : Event) (c : Client) → Flagged c (on_event e c).0)
      (stop : (o : Option (ℕ × ℕ)) (c : Client) → Flagged c (on_stop o c)) where
    on_events-Flagged : (es : List Event) (c : Client) → Flagged c (on_events es c)
    unfolding on_events
    on_events-Flagged [] c = inr (refl, refl)
    on_events-Flagged (e ∷ es) c = elim (Bool-cases (on_event e c).1) [
      | inl quiet ↦
          rw quiet
            (Flagged-trans c (on_event e c).0 _ (event e c) (on_events-Flagged es (on_event e c).0))
      | inr raised ↦ rw raised (event e c)
    ]

    receive-Flagged : (b : Batch) (c : Client) → Flagged c (receive b c)
    unfolding receive quic_event_received
    receive-Flagged [] c = inr (refl, refl)
    receive-Flagged (a ∷ as') c =
        let c' = on_stop a.stop c in
        Flagged-trans c _ _ (Flagged-trans c c' _ (stop a.stop c) (on_events-Flagged a.events c'))
          (receive-Flagged as' (on_events a.events c'))

    receive_all-Flagged : (bs : List Batch) (c : Client) → Flagged c (receive_all bs c)
    unfolding receive_all
    receive_all-Flagged [] c = inr (refl, refl)
    receive_all-Flagged (b ∷ bs) c =
        Flagged-trans c _ _ (receive-Flagged b c) (receive_all-Flagged bs (receive b c))

    -- So what stood in the field when the wait began still stands there when it times out.
    pub timed_out-kept :
        (bs : List Batch) (c : Client)
        → wait_for flag bs c ≡ none
        → field (receive_all bs c) ≡ field c
    timed_out-kept bs c w = elim (receive_all-Flagged bs c) [
      | inl up ↦ cc (up, wait_for-none flag bs c w)
      | inr (same, kept) ↦ kept
    ]

pub event-got_data :
    (e : Event) (c : Client) → Flagged (λ k. k.got_data) (λ k. k.buffer) c (on_event e c).0
unfolding on_event
event-got_data (headers_received s hs) c = elim (Bool-cases (is_own c.sid s)) [
  | inl e ↦ rw e (inr (refl, refl))
  | inr e ↦ rw e (inr (refl, refl))
]
event-got_data (data_received s payload) c = elim (Bool-cases (is_own c.sid s)) [
  | inl e ↦ rw e (inl refl)
  | inr e ↦ rw e (inr (refl, refl))
]

pub stop-got_data :
    (o : Option (ℕ × ℕ)) (c : Client) → Flagged (λ k. k.got_data) (λ k. k.buffer) c (on_stop o c)
unfolding on_stop
stop-got_data none c = inr (refl, refl)
stop-got_data (some (s, code)) c = inr (refl, refl)

pub event-got_stop :
    (e : Event) (c : Client) → Flagged (λ k. k.got_stop) (λ k. k.stops) c (on_event e c).0
unfolding on_event
event-got_stop (headers_received s hs) c = elim (Bool-cases (is_own c.sid s)) [
  | inl e ↦ rw e (inr (refl, refl))
  | inr e ↦ rw e (inr (refl, refl))
]
event-got_stop (data_received s payload) c = elim (Bool-cases (is_own c.sid s)) [
  | inl e ↦ rw e (inr (refl, refl))
  | inr e ↦ rw e (inr (refl, refl))
]

pub stop-got_stop :
    (o : Option (ℕ × ℕ)) (c : Client) → Flagged (λ k. k.got_stop) (λ k. k.stops) c (on_stop o c)
unfolding on_stop
stop-got_stop none c = inr (refl, refl)
stop-got_stop (some (s, code)) c = inl refl
