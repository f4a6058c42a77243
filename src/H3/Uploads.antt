-- ===== src/H3/Uploads.antt =====
-- The body loop of `_upload_body` in conformance/stress/client/h3.py, as a machine that is driven by what the
-- event loop does next: the loop itself goes on, or aioquic drops acknowledged bytes from its buffer
-- or forgets the stream. How many bytes of the stream the DATA frame of a chunk takes is aioquic's and is
-- the argument `framed`, on the length of the chunk.
pub mod Window
use nim_vortex.Prelude.{
  ℕ, zero, suc, ◌+◌, ◌-◌, ◌*◌, ◌/◌, ◌%◌, ◌^◌, ◌≤◌, ◌<◌, min, max, ◌≡◌, ◌≢◌, ◌⊎◌, inl, inr, ◌↔◌,
  refl, sym, ap, ◌∙◌, Bool, true, false, not, ◌&&◌, ◌||◌, Option, none, some, List, [], ◌∷◌, ◌++◌,
  map, append-nil, append_assoc, length, get_elem?, get_or, take, drop, replicate, ltb, leb, ◌==◌,
  if◌then◌else◌, arith, ltb→lt, lt→ltb, leb→le, ==_iff, Bool-cases, Option-cases, length-append,
  length-take, length-drop, take-append-drop, take-append, drop-append, drop-nil, drop-drop,
  get_or-drop, get_or-append_left, drop-append_left, take-append_left, slice-append_left, drop_all,
}
use nim_vortex.Prelude.Bytes.{Bytes}

-- `_UPLOAD_BUF_CAP`
abbrev pub upload_buf_cap : ℕ
upload_buf_cap = 256 * 1024

-- Before the next chunk, in the inner `while`, or waiting for the response.
pub data Phase : Type 0 where
  ready : Phase
  checking : Phase
  awaiting : Phase

-- The chunks still to come, the bytes given to `send_data`, and `len(st.sender._buffer)`, where there is
-- none once `_streams` has no entry.
pub record Upload : Type 0 where
  pub chunks : List Bytes
  pub sent : Bytes
  pub buffer : Option ℕ
  pub phase : Phase

pub data Event : Type 0 where
  go : Event
  acked : ℕ → Event
  forgotten : Event

unfoldable pub grow : ℕ → Option ℕ → Option ℕ
grow n none = none
grow n (some b) = some (b + n)

unfoldable pub shrink : ℕ → Option ℕ → Option ℕ
shrink n none = none
shrink n (some b) = some (b - n)

-- `st is not None and len(st.sender._buffer) >= _UPLOAD_BUF_CAP`
unfoldable pub is_full : Option ℕ → Bool
is_full none = false
is_full (some b) = leb upload_buf_cap b

-- The next chunk is sent in a DATA frame, or the empty frame that ends the stream.
unfoldable pub send : (ℕ → ℕ) → List Bytes → Upload → Upload
send framed [] s = record s { buffer = grow (framed 0) s.buffer; phase = awaiting }
send framed (d ∷ ds) s = record {
  chunks = ds;
  sent = s.sent ++ d;
  buffer = grow (framed (length d)) s.buffer;
  phase = checking;
}

unfoldable pub go_on : (ℕ → ℕ) → Phase → Upload → Upload
go_on framed ready s = send framed s.chunks s
go_on framed checking s = if is_full s.buffer then s else record s { phase = ready }
go_on framed awaiting s = s

unfoldable pub upload_step : (ℕ → ℕ) → Event → Upload → Upload
upload_step framed go s = go_on framed s.phase s
upload_step framed (acked n) s = record s { buffer = shrink n s.buffer }
upload_step framed forgotten s = record s { buffer = none }

-- The upload before its first chunk, where `_open` has left `opening` bytes of the HEADERS frame in the
-- buffer.
unfoldable pub begin : ℕ → List Bytes → Upload
begin opening chunks = record { chunks = chunks; sent = []; buffer = some opening; phase = ready }

-- The states that an upload comes through.
pub data Reaches (framed : ℕ → ℕ) (s : Upload) : Upload → Type 0 where
  here : Reaches framed s s
  next : (e : Event) (t : Upload) → Reaches framed s t → Reaches framed s (upload_step framed e t)
