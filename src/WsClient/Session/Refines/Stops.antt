-- ===== src/WsClient/Session/Refines/Stops.antt =====
-- `stop_sending` read off the history.
use nim_vortex.Prelude.{
  ℕ, zero, suc, ◌<◌, ◌≡◌, inl, inr, refl, sym, ap, ◌∙◌, false, Option, none, some, List, [], ◌++◌,
  append_assoc, length, arith, Option-cases,
}
use nim_vortex.WsClient.Session.{
  Batch, Client, stop_of, wait_for, Result, returned, failed_assertion, timed_out, out_of_fuel,
  stop_loop, stop_sending,
}
use nim_vortex.WsClient.Session.Refines.{History, hear, Implements}
use nim_vortex.WsClient.Session.Refines.Hears.{wait_for-Heard}
use nim_vortex.WsClient.Session.Refines.Flags.{
  length-wait_for_down, timed_out-kept, event-got_stop, stop-got_stop,
}
use nim_vortex.WsClient.Session.Refines.Waits.{Implements-receive_all, hear-append}

-- `stop_sending`: the code is the latest that came for the stream, and without one the time runs out.
abbrev pub Stops : ℕ → History → List Batch → Result (ℕ × Client × List Batch) → Type 0
Stops sid h bs (returned (code, c', bs')) =
    (used : List Batch) × (bs ≡ used ++ bs')
    × (stop_of sid (hear used h).signals ≡ some code)
    × Implements c' (hear used h)
Stops sid h bs timed_out = stop_of sid (hear bs h).signals ≡ none
Stops sid h bs failed_assertion = ⊥
Stops sid h bs out_of_fuel = ⊥

-- What holds behind the batches that a wait used holds from its start.
Stops-later :
    (sid : ℕ) (h : History) (used bs' bs : List Batch) (r : Result (ℕ × Client × List Batch))
    → bs ≡ used ++ bs'
    → Stops sid (hear used h) bs' r
    → Stops sid h bs r
Stops-later sid h used bs' bs (returned (code, c', bs'')) e (used', split, found, i) = (
  used ++ used',
  e ∙ ap (λ t. used ++ t) split ∙ sym (append_assoc used used' bs''),
  rw (hear-append used used' h) found,
  rw (hear-append used used' h) i,
)
Stops-later sid h used bs' bs timed_out e none_yet = rw (e, hear-append used bs' h) none_yet
Stops-later sid h used bs' bs failed_assertion e bad = bad
Stops-later sid h used bs' bs out_of_fuel e bad = bad

Implements-got_stop :
    (c : Client) (h : History) → Implements c h → Implements (record c { got_stop = false }) h
Implements-got_stop c h i = record {
  same_stream = i.same_stream;
  same_status = i.same_status;
  same_headers = i.same_headers;
  same_data = i.same_data;
  same_answer = i.same_answer;
  same_stops = i.same_stops;
  in_range = i.in_range;
}

stop_loop-found :
    (fuel sid : ℕ) (bs : List Batch) (c : Client) (code : ℕ)
    → stop_of sid c.stops ≡ some code
    → stop_loop (suc fuel) sid bs c ≡ returned (code, c, bs)
unfolding stop_loop
stop_loop-found fuel sid bs c code e = rw (e, stop_loop) refl

-- What the loop does once its wait has ended.
stop_next : ℕ → ℕ → Option (Client × List Batch) → Result (ℕ × Client × List Batch)
stop_next fuel sid none = timed_out
stop_next fuel sid (some (c', bs')) = stop_loop fuel sid bs' c'

stop_loop-waits :
    (fuel sid : ℕ) (bs : List Batch) (c : Client) (r : Option (Client × List Batch))
    → stop_of sid c.stops ≡ none
    → wait_for (λ k. k.got_stop) bs (record c { got_stop = false }) ≡ r
    → stop_loop (suc fuel) sid bs c ≡ stop_next fuel sid r
unfolding stop_loop stop_next
stop_loop-waits fuel sid bs c none e w = rw (e, w, stop_loop) refl
stop_loop-waits fuel sid bs c (some (c', bs')) e w = rw (e, w, stop_loop) refl

stop_next-Stops :
    (fuel sid : ℕ) (bs : List Batch) (c : Client) (h : History) (r : Option (Client × List Batch))
    → Implements c h
    → stop_of sid c.stops ≡ none
    → wait_for (λ k. k.got_stop) bs c ≡ r
    → ((used bs' : List Batch) (c' : Client)
        → bs ≡ used ++ bs'
        → Implements c' (hear used h)
        → wait_for (λ k. k.got_stop) bs c ≡ some (c', bs')
        → Stops sid (hear used h) bs' (stop_loop fuel sid bs' c'))
    → Stops sid h bs (stop_next fuel sid r)
unfolding stop_next
stop_next-Stops fuel sid bs c h none i e w ih =
    sym ((Implements-receive_all bs c h i).same_stops sid)
    ∙ ap (stop_of sid)
        (timed_out-kept (λ k. k.got_stop) (λ k. k.stops) event-got_stop stop-got_stop bs c w)
    ∙ e
stop_next-Stops fuel sid bs c h (some (c', bs')) i e w ih =
    let (used, split, i') = wait_for-Heard (λ k. k.got_stop) bs bs' c c' h i w in
    Stops-later sid h used bs' bs (stop_loop fuel sid bs' c') split (ih used bs' c' split i' w)

stop_loop-Stops :
    (fuel sid : ℕ) (bs : List Batch) (c : Client) (h : History)
    → Implements c h
    → length bs < fuel
    → Stops sid h bs (stop_loop fuel sid bs c)
unfolding hear
stop_loop-Stops zero sid bs c h i enough = absurd (omega arith)
stop_loop-Stops (suc fuel) sid bs c h i enough = elim (Option-cases (stop_of sid c.stops)) [
  | inr (code, e) ↦
      rw (stop_loop-found fuel sid bs c code e) ([], refl, sym (i.same_stops sid) ∙ e, i)
  | inl e ↦
      let c0 = record c { got_stop = false } in
      let wait = wait_for (λ k. k.got_stop) bs c0 in
      rw (stop_loop-waits fuel sid bs c wait e refl) (
        stop_next-Stops fuel sid bs c0 h wait (Implements-got_stop c h i) e refl
          (λ used bs' c' split i' w.
            stop_loop-Stops fuel sid bs' c' (hear used h) i'
              (omega (arith, length-wait_for_down (λ k. k.got_stop) bs bs' c0 c' refl w))))
]

pub stop_sending-Stops :
    (sid : ℕ) (bs : List Batch) (c : Client) (h : History)
    → Implements c h
    → Stops sid h bs (stop_sending sid bs c)
unfolding stop_sending
stop_sending-Stops sid bs c h i = stop_loop-Stops (suc (length bs)) sid bs c h i (omega arith)
