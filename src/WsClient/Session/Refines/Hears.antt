-- ===== src/WsClient/Session/Refines/Hears.antt =====
-- The client shows the history that its events leave, and a wait hears some of the batches.
use nim_vortex.Prelude.{
  ℕ, ◌≡◌, inl, inr, refl, sym, ap, ◌∙◌, Bool, true, ◌||◌, Option, none, some, List, [], ◌∷◌, ◌++◌,
  append-nil, append_assoc, drop, ◌==◌, if◌then◌else◌, arith, Bool-cases, Option-cases,
  length-append, drop-append_left,
}
use mathlib.Core.Path.{subst}
use nim_vortex.Prelude.Bytes.{Bytes, codes, equal}
use nim_vortex.Prelude.Dict.{Dict}
use nim_vortex.WsClient.Utf8.{decode_utf8}
use nim_vortex.WsClient.Session.{
  Headers, Event, headers_received, data_received, Batch, Client, dict_onto, set_stop, stop_of,
  is_own, read_status, on_event, on_events, on_stop, quic_event_received, receive, wait_for,
}
use nim_vortex.WsClient.Session.Refines.{
  History, heard_data, status_from, headers_from, is_answered, is_readable, hear_event, hear_events,
  signal, hear_batch, hear, Implements,
}

read_status_decodable :
    (st st' : Option Bytes) (hs : Headers) → (read_status st hs).1 ≡ (read_status st' hs).1
unfolding read_status
read_status_decodable st st' [] = refl
read_status_decodable st st' ((k, v) ∷ hs) = elim (Bool-cases (equal k (codes ":status"))) [
  | inr e ↦ rw (e, read_status) (read_status_decodable st st' hs)
  | inl e ↦ elim (Option-cases (decode_utf8 v)) [
    | inl d ↦ rw (e, d, read_status) refl
    | inr (text, d) ↦ rw (e, d, read_status) refl
  ]
]

heard_data-append :
    (es : List Event) (e : Event) → heard_data (es ++ e ∷ []) ≡ heard_data es ++ heard_data (e ∷ [])
unfolding heard_data
heard_data-append [] e = refl
heard_data-append (headers_received s hs ∷ es) e = heard_data-append es e
heard_data-append (data_received s payload ∷ es) e =
    ap (λ (t : Bytes). payload ++ t) (heard_data-append es e)
    ∙ sym (append_assoc payload (heard_data es) (heard_data (e ∷ [])))

status_from-append :
    (st : Option Bytes) (es : List Event) (e : Event)
    → status_from st (es ++ e ∷ []) ≡ status_from (status_from st es) (e ∷ [])
unfolding status_from
status_from-append st [] e = refl
status_from-append st (headers_received s hs ∷ es) e = status_from-append (read_status st hs).0 es e
status_from-append st (data_received s payload ∷ es) e = status_from-append st es e

headers_from-append :
    (d : Dict Bytes) (es : List Event) (e : Event)
    → headers_from d (es ++ e ∷ []) ≡ headers_from (headers_from d es) (e ∷ [])
unfolding headers_from
headers_from-append d [] e = refl
headers_from-append d (headers_received s hs ∷ es) e = headers_from-append (dict_onto [] hs) es e
headers_from-append d (data_received s payload ∷ es) e = headers_from-append d es e

is_answered-append :
    (es : List Event) (e : Event)
    → is_answered (es ++ e ∷ []) ≡ (is_answered es || is_answered (e ∷ []))
unfolding is_answered
is_answered-append [] e = refl
is_answered-append (headers_received s hs ∷ es) e = ground (arith, is_answered-append es e)
is_answered-append (data_received s payload ∷ es) e = is_answered-append es e

stop_of-set_stop :
    (sid s code : ℕ) (stops : List (ℕ × ℕ))
    → stop_of sid (set_stop s code stops) ≡ (if sid == s then some code else stop_of sid stops)
unfolding stop_of set_stop
stop_of-set_stop sid s code [] = refl
stop_of-set_stop sid s code ((j, w) ∷ stops) = ground (arith, stop_of-set_stop sid s code stops)

Implements-headers :
    (s : ℕ) (hs : Headers) (c : Client) (h : History)
    → Implements c h
    → Implements
        (record c {
          headers = dict_onto [] hs;
          status = (read_status c.status hs).0;
          got_headers = if (read_status c.status hs).1 then true else c.got_headers;
        })
        (record h { heard = h.heard ++ headers_received s hs ∷ [] })
unfolding heard_data status_from headers_from is_answered
Implements-headers s hs c h i =
    let same : heard_data (h.heard ++ headers_received s hs ∷ []) ≡ heard_data h.heard =
      heard_data-append h.heard (headers_received s hs) ∙ append-nil (heard_data h.heard) in
    record {
      same_stream = i.same_stream;
      same_status =
          ap (λ st. (read_status st hs).0) i.same_status
          ∙ sym (status_from-append none h.heard (headers_received s hs));
      same_headers = sym (headers_from-append [] h.heard (headers_received s hs));
      same_data = i.same_data ∙ ap (drop h.taken) (sym same);
      same_answer = ground (
        arith,
        i.same_answer,
        read_status_decodable c.status none hs,
        is_answered-append h.heard (headers_received s hs),
      );
      same_stops = i.same_stops;
      in_range = rw same i.in_range;
    }

Implements-data :
    (s : ℕ) (payload : Bytes) (c : Client) (h : History)
    → Implements c h
    → Implements
        (record c { buffer = c.buffer ++ payload; got_data = true })
        (record h { heard = h.heard ++ data_received s payload ∷ [] })
unfolding heard_data status_from headers_from is_answered
Implements-data s payload c h i =
    let grown : heard_data (h.heard ++ data_received s payload ∷ [])
        ≡ heard_data h.heard ++ payload =
      heard_data-append h.heard (data_received s payload)
      ∙ ap (λ (t : Bytes). heard_data h.heard ++ t) (append-nil payload) in
    record {
      same_stream = i.same_stream;
      same_status = i.same_status ∙ sym (status_from-append none h.heard (data_received s payload));
      same_headers =
          i.same_headers ∙ sym (headers_from-append [] h.heard (data_received s payload));
      same_data =
          ap (λ (t : Bytes). t ++ payload) i.same_data
          ∙ sym (
              ap (drop h.taken) grown
              ∙ drop-append_left h.taken (heard_data h.heard) payload i.in_range);
      same_answer =
          i.same_answer ∙ ground (arith, is_answered-append h.heard (data_received s payload));
      same_stops = i.same_stops;
      in_range = rw grown (omega (arith, length-append (heard_data h.heard) payload, i.in_range));
    }

is_own_same : (c : Client) (h : History) (s : ℕ) → Implements c h → is_own c.sid s ≡ is_own h.own s
is_own_same c h s i = ap (λ o. is_own o s) i.same_stream

Implements-on_event :
    (e : Event) (c : Client) (h : History)
    → Implements c h
    → Implements (on_event e c).0 (hear_event e h) × ((on_event e c).1 ≡ is_readable h.own e)
unfolding on_event hear_event is_readable
Implements-on_event (headers_received s hs) c h i = elim (Bool-cases (is_own h.own s)) [
  | inl e ↦
      rw (is_own_same c h s i ∙ e, e)
        (Implements-headers s hs c h i, read_status_decodable c.status none hs)
  | inr e ↦ rw (is_own_same c h s i ∙ e, e) (i, refl)
]
Implements-on_event (data_received s payload) c h i = elim (Bool-cases (is_own h.own s)) [
  | inl e ↦ rw (is_own_same c h s i ∙ e, e) (Implements-data s payload c h i, refl)
  | inr e ↦ rw (is_own_same c h s i ∙ e, e) (i, refl)
]

Implements-on_events :
    (es : List Event) (c : Client) (h : History)
    → Implements c h
    → Implements (on_events es c) (hear_events es h)
unfolding on_events hear_events
Implements-on_events [] c h i = i
Implements-on_events (e ∷ es) c h i =
    let (i', quiet) = Implements-on_event e c h i in
    elim (Bool-cases (is_readable h.own e)) [
      | inl r ↦ rw (quiet ∙ r, r) (Implements-on_events es (on_event e c).0 (hear_event e h) i')
      | inr r ↦ rw (quiet ∙ r, r) i'
    ]

Implements-on_stop :
    (o : Option (ℕ × ℕ)) (c : Client) (h : History)
    → Implements c h
    → Implements (on_stop o c) (signal o h)
unfolding on_stop signal
Implements-on_stop none c h i = i
Implements-on_stop (some (s, code)) c h i = record {
  same_stream = i.same_stream;
  same_status = i.same_status;
  same_headers = i.same_headers;
  same_data = i.same_data;
  same_answer = i.same_answer;
  same_stops = λ sid.
      stop_of-set_stop sid s code c.stops
      ∙ unfold stop_of in ap (λ o. if sid == s then some code else o) (i.same_stops sid);
  in_range = i.in_range;
}

pub Implements-receive :
    (b : Batch) (c : Client) (h : History)
    → Implements c h
    → Implements (receive b c) (hear_batch b h)
unfolding receive hear_batch quic_event_received
Implements-receive [] c h i = i
Implements-receive (a ∷ as') c h i = Implements-receive as' _ _ (
    Implements-on_events a.events (on_stop a.stop c) (signal a.stop h)
      (Implements-on_stop a.stop c h i))

-- A wait hears some of the batches, and leaves the others.
abbrev pub Heard : History → List Batch → List Batch → Client → Type 0
Heard h bs bs' c' = (used : List Batch) × (bs ≡ used ++ bs') × Implements c' (hear used h)

pub wait_for-Heard :
    (flag : Client → Bool) (bs bs' : List Batch) (c c' : Client) (h : History)
    → Implements c h
    → wait_for flag bs c ≡ some (c', bs')
    → Heard h bs bs' c'
unfolding wait_for hear
wait_for-Heard flag [] bs' c c' h i w = elim (Bool-cases (flag c)) [
  | inl e ↦
      let woke : some (c, []) ≡ some (c', bs') = rw e at w in
      ([], cc (woke), subst (λ k. Implements k h) (cc (woke)) i)
  | inr e ↦ let asleep : none ≡ some (c', bs') = rw e at w in cc (asleep)
]
wait_for-Heard flag (b ∷ bs) bs' c c' h i w = elim (Bool-cases (flag c)) [
  | inl e ↦
      let woke : some (c, b ∷ bs) ≡ some (c', bs') = rw e at w in
      ([], cc (woke), subst (λ k. Implements k h) (cc (woke)) i)
  | inr e ↦
      let later : wait_for flag bs (receive b c) ≡ some (c', bs') = rw e at w in
      let (used, split, i') =
        wait_for-Heard flag bs bs' (receive b c) c' (hear_batch b h) (Implements-receive b c h i)
          later in
      (b ∷ used, ap (λ t. b ∷ t) split, i')
]
