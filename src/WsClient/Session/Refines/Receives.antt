-- ===== src/WsClient/Session/Refines/Receives.antt =====
-- `recv_ws` read off the history.
use nim_vortex.Prelude.{
  ℕ, zero, suc, ◌+◌, ◌≤◌, ◌<◌, ◌≡◌, inl, inr, refl, sym, ap, ◌∙◌, true, false, Option, none, some,
  List, [], ◌++◌, append_assoc, length, drop, leb, arith, Bool-cases, leb→le, length-drop,
  drop-drop,
}
use nim_vortex.Prelude.Bytes.{Bytes}
use nim_vortex.Ws.{Parsed, parsed, assertion_error, spent}
use nim_vortex.WsClient.Framing.{parse_ws}
use nim_vortex.WsClient.Session.{
  Batch, Client, wait_for, Result, returned, failed_assertion, timed_out, out_of_fuel, recv_loop,
  recv_ws,
}
use nim_vortex.WsClient.Session.Refines.{History, heard_data, remaining, hear, consume, Implements}
use nim_vortex.WsClient.Session.Refines.Hears.{wait_for-Heard}
use nim_vortex.WsClient.Framing.Ends.{Ends, parse_ws-Ends}
use nim_vortex.WsClient.Session.Refines.Flags.{
  length-wait_for_down, timed_out-kept, event-got_data, stop-got_data,
}
use nim_vortex.WsClient.Session.Refines.Waits.{Implements-receive_all, hear-append}

-- `recv_ws(want)`: the frames are those of what has been heard and not taken, `want` of them at least.
abbrev pub Receives :
    ℕ → History → List Batch → Result (List (ℕ × Bytes) × Client × List Batch) → Type 0
Receives want h bs (returned (fs, c', bs')) =
    (used : List Batch) × (n : ℕ) × (bs ≡ used ++ bs')
    × (parse_ws (remaining (hear used h)) ≡ parsed fs n)
    × (want ≤ length fs)
    × Implements c' (consume n (hear used h))
Receives want h bs timed_out =
    (fs : List (ℕ × Bytes)) × (n : ℕ) × (parse_ws (remaining (hear bs h)) ≡ parsed fs n)
    × (length fs < want)
Receives want h bs failed_assertion =
    (used : List Batch) × (bs' : List Batch) × (bs ≡ used ++ bs')
    × (parse_ws (remaining (hear used h)) ≡ assertion_error)
Receives want h bs out_of_fuel = ⊥

Receives-later :
    (want : ℕ) (h : History) (used bs' bs : List Batch)
    (r : Result (List (ℕ × Bytes) × Client × List Batch))
    → bs ≡ used ++ bs'
    → Receives want (hear used h) bs' r
    → Receives want h bs r
Receives-later want h used bs' bs (returned (fs, c', bs'')) e (used', n, split, took, enough, i) = (
  used ++ used',
  n,
  e ∙ ap (λ t. used ++ t) split ∙ sym (append_assoc used used' bs''),
  rw (hear-append used used' h) took,
  enough,
  rw (hear-append used used' h) i,
)
Receives-later want h used bs' bs timed_out e (fs, n, took, few) =
    (fs, n, rw (e, hear-append used bs' h) took, few)
Receives-later want h used bs' bs failed_assertion e (used', bs'', split, raised) = (
  used ++ used',
  bs'',
  e ∙ ap (λ t. used ++ t) split ∙ sym (append_assoc used used' bs''),
  rw (hear-append used used' h) raised,
)
Receives-later want h used bs' bs out_of_fuel e bad = bad

-- The flags are no part of what the client shows.
Implements-got_data :
    (c : Client) (h : History) → Implements c h → Implements (record c { got_data = false }) h
Implements-got_data c h i = record {
  same_stream = i.same_stream;
  same_status = i.same_status;
  same_headers = i.same_headers;
  same_data = i.same_data;
  same_answer = i.same_answer;
  same_stops = i.same_stops;
  in_range = i.in_range;
}

recv_next : ℕ → ℕ → Option (Client × List Batch) → Result (List (ℕ × Bytes) × Client × List Batch)
recv_next fuel want none = timed_out
recv_next fuel want (some (c', bs')) = recv_loop fuel want bs' c'

recv_loop-waits :
    (fuel want : ℕ) (bs : List Batch) (c : Client) (fs : List (ℕ × Bytes)) (n : ℕ)
    (r : Option (Client × List Batch))
    → parse_ws c.buffer ≡ parsed fs n
    → leb want (length fs) ≡ false
    → wait_for (λ k. k.got_data) bs (record c { got_data = false }) ≡ r
    → recv_loop (suc fuel) want bs c ≡ recv_next fuel want r
unfolding recv_loop recv_next
recv_loop-waits fuel want bs c fs n none e few w = rw (e, few, w, recv_loop) refl
recv_loop-waits fuel want bs c fs n (some (c', bs')) e few w = rw (e, few, w, recv_loop) refl

recv_loop-returns :
    (fuel want : ℕ) (bs : List Batch) (c : Client) (fs : List (ℕ × Bytes)) (n : ℕ)
    → parse_ws c.buffer ≡ parsed fs n
    → leb want (length fs) ≡ true
    → recv_loop (suc fuel) want bs c ≡ returned (fs, record c { buffer = drop n c.buffer }, bs)
unfolding recv_loop
recv_loop-returns fuel want bs c fs n e enough = rw (e, enough, recv_loop) refl

recv_loop-faults :
    (fuel want : ℕ) (bs : List Batch) (c : Client)
    → parse_ws c.buffer ≡ assertion_error
    → recv_loop (suc fuel) want bs c ≡ failed_assertion
unfolding recv_loop
recv_loop-faults fuel want bs c e = rw (e, recv_loop) refl

-- Taking the frames off the buffer.
Implements-consume :
    (n : ℕ) (c : Client) (h : History)
    → Implements c h
    → n ≤ length c.buffer
    → Implements (record c { buffer = drop n c.buffer }) (consume n h)
Implements-consume n c h i inside = record {
  same_stream = i.same_stream;
  same_status = i.same_status;
  same_headers = i.same_headers;
  same_data = ap (drop n) i.same_data ∙ drop-drop n h.taken (heard_data h.heard) (h.taken + n) refl;
  same_answer = i.same_answer;
  same_stops = i.same_stops;
  in_range = omega (
    arith,
    i.in_range,
    ap (λ (t : Bytes). length t) i.same_data,
    length-drop h.taken (heard_data h.heard),
  );
}

recv_next-Receives :
    (fuel want : ℕ) (bs : List Batch) (c : Client) (h : History) (fs : List (ℕ × Bytes)) (n : ℕ)
    (r : Option (Client × List Batch))
    → Implements c h
    → parse_ws c.buffer ≡ parsed fs n
    → length fs < want
    → wait_for (λ k. k.got_data) bs c ≡ r
    → ((used bs' : List Batch) (c' : Client)
        → bs ≡ used ++ bs'
        → Implements c' (hear used h)
        → wait_for (λ k. k.got_data) bs c ≡ some (c', bs')
        → Receives want (hear used h) bs' (recv_loop fuel want bs' c'))
    → Receives want h bs (recv_next fuel want r)
unfolding recv_next
recv_next-Receives fuel want bs c h fs n none i e few w ih = (
  fs,
  n,
  ap parse_ws (
        sym (Implements-receive_all bs c h i).same_data
        ∙ timed_out-kept (λ k. k.got_data) (λ k. k.buffer) event-got_data stop-got_data bs c w)
      ∙ e,
  few,
)
recv_next-Receives fuel want bs c h fs n (some (c', bs')) i e few w ih =
    let (used, split, i') = wait_for-Heard (λ k. k.got_data) bs bs' c c' h i w in
    Receives-later want h used bs' bs (recv_loop fuel want bs' c') split (ih used bs' c' split i' w)

-- One round of the loop, by what the parse has come to.
recv_round-Receives :
    (fuel want : ℕ) (bs : List Batch) (c : Client) (h : History) (p : Parsed)
    → Implements c h
    → parse_ws c.buffer ≡ p
    → Ends c.buffer p
    → ((used bs' : List Batch) (c' : Client)
        → Implements c' (hear used h)
        → length bs' < length bs
        → Receives want (hear used h) bs' (recv_loop fuel want bs' c'))
    → Receives want h bs (recv_loop (suc fuel) want bs c)
unfolding hear
recv_round-Receives fuel want bs c h spent i e ends ih = absurd ends
recv_round-Receives fuel want bs c h assertion_error i e ends ih =
    rw (recv_loop-faults fuel want bs c e) ([], bs, refl, ap parse_ws (sym i.same_data) ∙ e)
recv_round-Receives fuel want bs c h (parsed fs n) i e ends ih =
    elim (Bool-cases (leb want (length fs))) [
      | inl enough ↦ rw (recv_loop-returns fuel want bs c fs n e enough) (
        [],
        n,
        refl,
        ap parse_ws (sym i.same_data) ∙ e,
        leb→le _ _ enough,
        Implements-consume n c h i ends,
      )
      | inr few ↦
          let c0 = record c { got_data = false } in
          let wait = wait_for (λ k. k.got_data) bs c0 in
          rw (recv_loop-waits fuel want bs c fs n wait e few refl) (
            recv_next-Receives fuel want bs c0 h fs n wait (Implements-got_data c h i) e
              (ground arith) refl
              (λ used bs' c' split i' w.
                ih used bs' c' i' (length-wait_for_down (λ k. k.got_data) bs bs' c0 c' refl w)))
    ]

recv_loop-Receives :
    (fuel want : ℕ) (bs : List Batch) (c : Client) (h : History)
    → Implements c h
    → length bs < fuel
    → Receives want h bs (recv_loop fuel want bs c)
recv_loop-Receives zero want bs c h i enough = absurd (omega arith)
recv_loop-Receives (suc fuel) want bs c h i enough =
    recv_round-Receives fuel want bs c h (parse_ws c.buffer) i refl (parse_ws-Ends c.buffer)
      (λ used bs' c' i' less. recv_loop-Receives fuel want bs' c' (hear used h) i' (omega arith))

pub recv_ws-Receives :
    (want : ℕ) (bs : List Batch) (c : Client) (h : History)
    → Implements c h
    → Receives want h bs (recv_ws want bs c)
unfolding recv_ws
recv_ws-Receives want bs c h i = recv_loop-Receives (suc (length bs)) want bs c h i (omega arith)
