-- ===== src/WsClient/Session/Refines.antt =====
-- The client against an abstract one, which keeps the events of its own stream since the stream was
-- opened and how many of their bytes have been taken, and in which a reply is read off that history.
pub mod Hears
pub mod Flags
pub mod Waits
pub mod Opens
pub mod Stops
pub mod Receives
pub mod Calls
use nim_vortex.Prelude.{
  ℕ, zero, suc, ◌+◌, ◌≤◌, ◌≡◌, inl, inr, refl, sym, ap, ◌∙◌, Bool, true, false, not, ◌||◌, Option,
  none, some, List, [], ◌∷◌, ◌++◌, append-nil, append_assoc, length, drop, leb, ◌==◌, if◌then◌else◌,
  arith, Bool-cases, Option-cases, leb→le, length-append, drop-drop, drop-append_left, drop-nil,
}
use mathlib.Core.Path.{subst}
use nim_vortex.Prelude.Bytes.{Bytes, codes, equal}
use nim_vortex.Prelude.Dict.{Dict}
use nim_vortex.Ws.{Parsed, parsed, assertion_error, spent}
use nim_vortex.WsClient.Framing.{parse_ws}
use nim_vortex.WsClient.Utf8.{decode_utf8}
use nim_vortex.WsClient.Session.{
  Headers, Event, headers_received, data_received, Arrival, Batch, Client, dict_onto, set_stop,
  stop_of, is_own, read_status, on_event, on_events, on_stop, quic_event_received, receive, Opening,
  begin_ws, wait_for, Result, returned, failed_assertion, timed_out, out_of_fuel, opened_status,
  open_ws, stop_loop, stop_sending, recv_loop, recv_ws,
}

-- The stream, what was heard on it, how many bytes of that are taken, and the STOP_SENDING codes of the
-- whole connection, the latest first.
pub record History : Type 0 where
  pub own : Option ℕ
  pub heard : List Event
  pub taken : ℕ
  pub signals : List (ℕ × ℕ)

unfoldable pub heard_data : List Event → Bytes
heard_data [] = []
heard_data (headers_received s hs ∷ es) = heard_data es
heard_data (data_received s payload ∷ es) = payload ++ heard_data es

-- The status and the headers after the events, from those before.
unfoldable pub status_from : Option Bytes → List Event → Option Bytes
status_from st [] = st
status_from st (headers_received s hs ∷ es) = status_from (read_status st hs).0 es
status_from st (data_received s payload ∷ es) = status_from st es

unfoldable pub headers_from : Dict Bytes → List Event → Dict Bytes
headers_from d [] = d
headers_from d (headers_received s hs ∷ es) = headers_from (dict_onto [] hs) es
headers_from d (data_received s payload ∷ es) = headers_from d es

-- Whether a response came whose status is a text.
unfoldable pub is_answered : List Event → Bool
is_answered [] = false
is_answered (headers_received s hs ∷ es) = (read_status none hs).1 || is_answered es
is_answered (data_received s payload ∷ es) = is_answered es

-- What has been heard and not taken.
abbrev pub remaining : History → Bytes
remaining h = drop h.taken (heard_data h.heard)

abbrev stream_of : Event → ℕ
stream_of (headers_received s hs) = s
stream_of (data_received s payload) = s

-- A response of the client's own stream whose status is no text ends the reading of its arrival.
unfoldable pub is_readable : Option ℕ → Event → Bool
is_readable own (headers_received s hs) = not (is_own own s) || (read_status none hs).1
is_readable own (data_received s payload) = true

unfoldable pub hear_event : Event → History → History
hear_event e h = if is_own h.own (stream_of e) then record h { heard = h.heard ++ e ∷ [] } else h

unfoldable pub hear_events : List Event → History → History
hear_events [] h = h
hear_events (e ∷ es) h =
    let h' = hear_event e h in if is_readable h.own e then hear_events es h' else h'

unfoldable pub signal : Option (ℕ × ℕ) → History → History
signal none h = h
signal (some s) h = record h { signals = s ∷ h.signals }

unfoldable pub hear_batch : Batch → History → History
hear_batch [] h = h
hear_batch (a ∷ as') h = hear_batch as' (hear_events a.events (signal a.stop h))

unfoldable pub hear : List Batch → History → History
hear [] h = h
hear (b ∷ bs) h = hear bs (hear_batch b h)

abbrev pub start : ℕ → History → History
start sid h = record h { own = some sid; heard = []; taken = 0 }

abbrev pub consume : ℕ → History → History
consume n h = record h { taken = h.taken + n }

-- The client shows just this history.
pub record Implements (c : Client) (h : History) : Type 0 where
  pub same_stream : c.sid ≡ h.own
  pub same_status : c.status ≡ status_from none h.heard
  pub same_headers : c.headers ≡ headers_from [] h.heard
  pub same_data : c.buffer ≡ remaining h
  pub same_answer : c.got_headers ≡ is_answered h.heard
  pub same_stops : (sid : ℕ) → stop_of sid c.stops ≡ stop_of sid h.signals
  pub in_range : h.taken ≤ length (heard_data h.heard)
