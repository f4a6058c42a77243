-- ===== src/WsClient/Session/Refines/Opens.antt =====
-- `open_ws` read off the history.
use nim_vortex.Prelude.{ℕ, ◌≡◌, refl, sym, ◌∙◌, true, false, Option, none, some, List, ◌++◌, arith}
use nim_vortex.Prelude.Bytes.{Bytes}
use nim_vortex.WsClient.Session.{
  Batch, Client, Opening, begin_ws, wait_for, Result, returned, failed_assertion, timed_out,
  out_of_fuel, opened_status, open_ws,
}
use nim_vortex.WsClient.Session.Refines.{
  History, heard_data, status_from, headers_from, is_answered, hear, start, Implements,
}
use nim_vortex.WsClient.Session.Refines.Hears.{wait_for-Heard}
use nim_vortex.WsClient.Session.Refines.Flags.{wait_for-none}
use nim_vortex.WsClient.Session.Refines.Waits.{Implements-receive_all, wait_for-returned}

-- The client of an opening that has just been sent.
Implements-begin_ws :
    (sid : ℕ) (o : Opening) (c : Client) (h : History)
    → Implements c h
    → Implements (begin_ws sid o c) (start sid h)
unfolding begin_ws status_from headers_from is_answered heard_data
Implements-begin_ws sid o c h i = record {
  same_stream = refl;
  same_status = refl;
  same_headers = refl;
  same_data = refl;
  same_answer = refl;
  same_stops = i.same_stops;
  in_range = omega arith;
}

-- `open_ws`: the status is that of the new stream, and without a response there the time runs out.
abbrev pub Opens : ℕ → History → List Batch → Result (Option Bytes × Client × List Batch) → Type 0
Opens sid h bs (returned (st, c', bs')) =
    (used : List Batch) × (bs ≡ used ++ bs')
    × (st ≡ status_from none (hear used (start sid h)).heard)
    × (is_answered (hear used (start sid h)).heard ≡ true)
    × Implements c' (hear used (start sid h))
Opens sid h bs timed_out = is_answered (hear bs (start sid h)).heard ≡ false
Opens sid h bs failed_assertion = ⊥
Opens sid h bs out_of_fuel = ⊥

opened_status-Opens :
    (sid : ℕ) (o : Opening) (bs : List Batch) (c : Client) (h : History)
    → Implements (begin_ws sid o c) (start sid h)
    → (r : Option (Client × List Batch)) → wait_for (λ k. k.got_headers) bs (begin_ws sid o c) ≡ r
    → Opens sid h bs (opened_status r)
unfolding opened_status
opened_status-Opens sid o bs c h i none w =
    sym (Implements-receive_all bs (begin_ws sid o c) (start sid h) i).same_answer
    ∙ wait_for-none (λ k. k.got_headers) bs (begin_ws sid o c) w
opened_status-Opens sid o bs c h i (some (c', bs')) w =
    let (used, split, i') =
      wait_for-Heard (λ k. k.got_headers) bs bs' (begin_ws sid o c) c' (start sid h) i w in
    (
      used,
      split,
      i'.same_status,
      sym i'.same_answer ∙ wait_for-returned (λ k. k.got_headers) bs bs' (begin_ws sid o c) c' w,
      i',
    )

pub open_ws-Opens :
    (sid : ℕ) (o : Opening) (bs : List Batch) (c : Client) (h : History)
    → Implements c h
    → Opens sid h bs (open_ws sid o bs c)
unfolding open_ws
open_ws-Opens sid o bs c h i =
    opened_status-Opens sid o bs c h (Implements-begin_ws sid o c h i) _ refl
