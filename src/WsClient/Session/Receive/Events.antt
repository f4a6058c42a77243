-- ===== src/WsClient/Session/Receive/Events.antt =====
-- What the events of a wait bring for the client's own stream.
use nim_vortex.Prelude.{
  ℕ, ◌≡◌, ◌≢◌, ◌⊎◌, inl, inr, refl, sym, ap, ◌∙◌, true, false, Option, none, some, List, [], ◌∷◌,
  ◌++◌, append-nil, append_assoc, ◌==◌, if◌then◌else◌, arith, Bool-cases,
}
use nim_vortex.Prelude.Bytes.{Bytes}
use nim_vortex.WsClient.Session.{
  Event, headers_received, data_received, Batch, Client, is_own, on_event, on_events, on_stop,
  quic_event_received, receive,
}

-- What the events bring for the stream `sid`, when none of them are its headers.
unfoldable pub event_data : ℕ → Event → Bytes
event_data sid (headers_received s hs) = []
event_data sid (data_received s payload) = if s == sid then payload else []

unfoldable pub events_data : ℕ → List Event → Bytes
events_data sid [] = []
events_data sid (e ∷ es) = event_data sid e ++ events_data sid es

unfoldable pub batch_data : ℕ → Batch → Bytes
batch_data sid [] = []
batch_data sid (a ∷ as') = events_data sid a.events ++ batch_data sid as'

abbrev pub QuietEvents : ℕ → List Event → Type 0
QuietEvents sid [] = Unit
QuietEvents sid (headers_received s hs ∷ es) = (s ≢ sid) × QuietEvents sid es
QuietEvents sid (data_received s payload ∷ es) = QuietEvents sid es

abbrev pub IsQuiet : ℕ → Batch → Type 0
IsQuiet sid [] = Unit
IsQuiet sid (a ∷ as') = QuietEvents sid a.events × IsQuiet sid as'

-- The state behind the data `d` of the client's own stream.
pub record Carries (sid : ℕ) (c : Client) (d : Bytes) (c' : Client) : Type 0 where
  pub own : c'.sid ≡ some sid
  pub same_status : c'.status ≡ c.status
  pub same_headers : c'.headers ≡ c.headers
  pub same_wire : c'.wire ≡ c.wire
  pub same_opening : c'.got_headers ≡ c.got_headers
  pub grown : c'.buffer ≡ c.buffer ++ d
  pub flagged : (c'.got_data ≡ true) ⊎ ((c'.got_data ≡ c.got_data) × (d ≡ []))

pub Carries-trans :
    (sid : ℕ) (c c' c'' : Client) (d e : Bytes)
    → Carries sid c d c'
    → Carries sid c' e c''
    → Carries sid c (d ++ e) c''
Carries-trans sid c c' c'' d e h k = record {
  own = k.own;
  same_status = k.same_status ∙ h.same_status;
  same_headers = k.same_headers ∙ h.same_headers;
  same_wire = k.same_wire ∙ h.same_wire;
  same_opening = k.same_opening ∙ h.same_opening;
  grown = k.grown ∙ ap (λ (t : Bytes). t ++ e) h.grown ∙ append_assoc c.buffer d e;
  flagged = flags h.flagged k.flagged;
}
  where
    flags :
        (c'.got_data ≡ true) ⊎ ((c'.got_data ≡ c.got_data) × (d ≡ []))
        → (c''.got_data ≡ true) ⊎ ((c''.got_data ≡ c'.got_data) × (e ≡ []))
        → (c''.got_data ≡ true) ⊎ ((c''.got_data ≡ c.got_data) × (d ++ e ≡ []))
    flags f (inl g) = inl g
    flags (inl f) (inr (g, n)) = inl (g ∙ f)
    flags (inr (f, m)) (inr (g, n)) = inr (g ∙ f, rw (m, n) refl)

pub Carries-none :
    (sid : ℕ) (c c' : Client)
    → c'.sid ≡ some sid
    → c'.status ≡ c.status
    → c'.headers ≡ c.headers
    → c'.wire ≡ c.wire
    → c'.got_headers ≡ c.got_headers
    → c'.buffer ≡ c.buffer
    → c'.got_data ≡ c.got_data
    → Carries sid c [] c'
Carries-none sid c c' own st hs wire heads buffer got = record {
  own = own;
  same_status = st;
  same_headers = hs;
  same_wire = wire;
  same_opening = heads;
  grown = buffer ∙ sym (append-nil c.buffer);
  flagged = inr (got, refl);
}

is_own-eq : (own : Option ℕ) (s sid : ℕ) → own ≡ some sid → is_own own s ≡ (s == sid)
unfolding is_own
is_own-eq own s sid e = rw e refl

Carries-on_event :
    (sid : ℕ) (e : Event) (c : Client)
    → c.sid ≡ some sid
    → QuietEvents sid (e ∷ [])
    → Carries sid c (event_data sid e) (on_event e c).0 × ((on_event e c).1 ≡ true)
unfolding on_event event_data
Carries-on_event sid (headers_received s hs) c own quiet =
    let foreign : is_own c.sid s ≡ false = is_own-eq c.sid s sid own ∙ ground arith in
    rw foreign (Carries-none sid c c own refl refl refl refl refl refl, refl)
Carries-on_event sid (data_received s payload) c own quiet = elim (Bool-cases (s == sid)) [
  | inl e ↦
      let mine : is_own c.sid s ≡ true = is_own-eq c.sid s sid own ∙ e in
      rw (mine, e)
        (
          record {
            own = own;
            same_status = refl;
            same_headers = refl;
            same_wire = refl;
            same_opening = refl;
            grown = refl;
            flagged = inl refl;
          },
          refl,
        )
  | inr e ↦
      let foreign : is_own c.sid s ≡ false = is_own-eq c.sid s sid own ∙ e in
      rw (foreign, e) (Carries-none sid c c own refl refl refl refl refl refl, refl)
]

Carries-on_events :
    (sid : ℕ) (es : List Event) (c : Client)
    → c.sid ≡ some sid
    → QuietEvents sid es
    → Carries sid c (events_data sid es) (on_events es c)
unfolding on_events events_data
Carries-on_events sid [] c own quiet = Carries-none sid c c own refl refl refl refl refl refl
Carries-on_events sid (headers_received s hs ∷ es) c own (foreign, quiet) =
    let (h, plain) = Carries-on_event sid (headers_received s hs) c own (foreign, tt) in
    let c' = (on_event (headers_received s hs) c).0 in
    rw plain (
      Carries-trans sid c c' _ (event_data sid (headers_received s hs)) (events_data sid es) h
        (Carries-on_events sid es c' h.own quiet))
Carries-on_events sid (data_received s payload ∷ es) c own quiet =
    let (h, plain) = Carries-on_event sid (data_received s payload) c own tt in
    let c' = (on_event (data_received s payload) c).0 in
    rw plain (
      Carries-trans sid c c' _ (event_data sid (data_received s payload)) (events_data sid es) h
        (Carries-on_events sid es c' h.own quiet))

Carries-on_stop :
    (sid : ℕ) (o : Option (ℕ × ℕ)) (c : Client) → c.sid ≡ some sid → Carries sid c [] (on_stop o c)
unfolding on_stop
Carries-on_stop sid none c own = Carries-none sid c c own refl refl refl refl refl refl
Carries-on_stop sid (some (s, code)) c own = Carries-none sid c _ own refl refl refl refl refl refl

pub Carries-receive :
    (sid : ℕ) (b : Batch) (c : Client)
    → c.sid ≡ some sid
    → IsQuiet sid b
    → Carries sid c (batch_data sid b) (receive b c)
unfolding receive batch_data quic_event_received
Carries-receive sid [] c own quiet = Carries-none sid c c own refl refl refl refl refl refl
Carries-receive sid (a ∷ as') c own (quiet, later) =
    let h = Carries-on_stop sid a.stop c own in
    let k =
      Carries-trans sid c _ _ [] (events_data sid a.events) h
        (Carries-on_events sid a.events (on_stop a.stop c) h.own quiet) in
    Carries-trans sid c _ _ (events_data sid a.events) (batch_data sid as') k
      (Carries-receive sid as' _ k.own later)
