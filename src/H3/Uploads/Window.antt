-- ===== src/H3/Uploads/Window.antt =====
-- What holds in every state of an upload.
use nim_vortex.Prelude.{
  ℕ, ◌+◌, ◌≤◌, ◌<◌, ◌≡◌, refl, ◌∙◌, Bool, true, false, Option, none, some, List, [], ◌∷◌, ◌++◌,
  append_assoc, length, if◌then◌else◌, arith,
}
use nim_vortex.Prelude.Bytes.{Bytes}
use nim_vortex.H3.Uploads.{
  upload_buf_cap, Phase, ready, checking, awaiting, Upload, Event, go, acked, forgotten, grow,
  shrink, is_full, send, go_on, upload_step, begin, Reaches, here, next,
}

unfoldable pub joined : List Bytes → Bytes
joined [] = []
joined (d ∷ ds) = d ++ joined ds

-- No chunk is longer than `m`.
abbrev pub AreShort : ℕ → List Bytes → Type 0
AreShort m [] = Unit
AreShort m (d ∷ ds) = (length d ≤ m) × AreShort m ds

-- The buffer holds less than `n` bytes.
abbrev pub Below : ℕ → Option ℕ → Type 0
Below n none = Unit
Below n (some b) = b < n

-- What a DATA frame takes: one byte of type and at most eight of length besides the chunk.
abbrev pub IsFraming : (ℕ → ℕ) → Type 0
IsFraming framed = (n : ℕ) → framed n ≤ n + 9

-- How much more than the cap the buffer may hold.
abbrev overhang : ℕ → Phase → ℕ
overhang m ready = 0
overhang m checking = m + 9
overhang m awaiting = 9

record IsUpload (m : ℕ) (body : Bytes) (s : Upload) : Type 0 where
  short : AreShort m s.chunks
  whole : s.sent ++ joined s.chunks ≡ body
  within : Below (upload_buf_cap + overhang m s.phase) s.buffer

Below-grow : (n d m : ℕ) (b : Option ℕ) → d ≤ m → Below (n + 0) b → Below (n + m) (grow d b)
unfolding grow
Below-grow n d m none h k = tt
Below-grow n d m (some b) h k = omega arith

Below-shrink : (n d : ℕ) (b : Option ℕ) → Below n b → Below n (shrink d b)
unfolding shrink
Below-shrink n d none h = tt
Below-shrink n d (some b) h = omega arith

Below-is_full : (m : ℕ) (b : Option ℕ) → is_full b ≡ false → Below (upload_buf_cap + 0) b
unfolding is_full
Below-is_full m none h = tt
Below-is_full m (some b) h = ground arith

send-IsUpload :
    (framed : ℕ → ℕ) (m : ℕ) (body : Bytes) (ds : List Bytes) (s : Upload)
    → IsFraming framed
    → s.chunks ≡ ds
    → s.phase ≡ ready
    → IsUpload m body s
    → IsUpload m body (send framed ds s)
unfolding send joined
send-IsUpload framed m body [] s f e r i =
    let within : Below (upload_buf_cap + 0) s.buffer = rw r at i.within in
    record {
      short = i.short;
      whole = i.whole;
      within = Below-grow upload_buf_cap (framed 0) 9 s.buffer (omega (arith, f 0)) within;
    }
send-IsUpload framed m body (d ∷ ds) s f e r i =
    let short : AreShort m (d ∷ ds) = rw e at i.short in
    let whole : s.sent ++ joined (d ∷ ds) ≡ body = rw e at i.whole in
    let within : Below (upload_buf_cap + 0) s.buffer = rw r at i.within in
    record {
      short = short.1;
      whole = append_assoc s.sent d (joined ds) ∙ whole;
      within =
          Below-grow upload_buf_cap (framed (length d)) (m + 9) s.buffer
            (omega (arith, f (length d), short.0)) within;
    }

if-IsUpload :
    (m : ℕ) (body : Bytes) (b : Bool) (s t : Upload)
    → IsUpload m body s
    → (b ≡ false → IsUpload m body t)
    → IsUpload m body (if b then s else t)
if-IsUpload m body true s t i j = i
if-IsUpload m body false s t i j = j refl

go_on-IsUpload :
    (framed : ℕ → ℕ) (m : ℕ) (body : Bytes) (p : Phase) (s : Upload)
    → IsFraming framed
    → s.phase ≡ p
    → IsUpload m body s
    → IsUpload m body (go_on framed p s)
unfolding go_on
go_on-IsUpload framed m body ready s f e i = send-IsUpload framed m body s.chunks s f refl e i
go_on-IsUpload framed m body checking s f e i =
    if-IsUpload m body (is_full s.buffer) s (record s { phase = ready }) i
      (λ free. record { short = i.short; whole = i.whole; within = Below-is_full m s.buffer free })
go_on-IsUpload framed m body awaiting s f e i = i

step-IsUpload :
    (framed : ℕ → ℕ) (m : ℕ) (body : Bytes) (e : Event) (s : Upload)
    → IsFraming framed
    → IsUpload m body s
    → IsUpload m body (upload_step framed e s)
unfolding upload_step
step-IsUpload framed m body go s f i = go_on-IsUpload framed m body s.phase s f refl i
step-IsUpload framed m body (acked n) s f i = record {
  short = i.short;
  whole = i.whole;
  within = Below-shrink (upload_buf_cap + overhang m s.phase) n s.buffer i.within;
}
step-IsUpload framed m body forgotten s f i = record {
  short = i.short;
  whole = i.whole;
  within = tt;
}

Reaches-IsUpload :
    (framed : ℕ → ℕ) (m : ℕ) (body : Bytes) (s t : Upload)
    → IsFraming framed
    → IsUpload m body s
    → Reaches framed s t
    → IsUpload m body t
Reaches-IsUpload framed m body s t f i here = i
Reaches-IsUpload framed m body s t f i (next e u r) =
    step-IsUpload framed m body e u f (Reaches-IsUpload framed m body s u f i r)

overhang_le : (m : ℕ) (p : Phase) → overhang m p ≤ m + 9
overhang_le m ready = omega arith
overhang_le m checking = omega arith
overhang_le m awaiting = omega arith

Below-more : (n m : ℕ) (b : Option ℕ) → n ≤ m → Below n b → Below m b
Below-more n m none h k = tt
Below-more n m (some b) h k = omega arith

-- In whatever order acknowledgements arrive, an upload keeps in the send buffer less than the cap, one
-- chunk and the 9 bytes that a frame header takes at most, the frame that ends the stream included; and
-- what it has sent and what it has still to send are the body, in order. This is for a HEADERS frame below
-- the cap.
pub Reaches-Below :
    (framed : ℕ → ℕ) (opening m : ℕ) (chunks : List Bytes) (t : Upload)
    → IsFraming framed
    → opening < upload_buf_cap
    → AreShort m chunks
    → Reaches framed (begin opening chunks) t
    → Below (upload_buf_cap + (m + 9)) t.buffer × (t.sent ++ joined t.chunks ≡ joined chunks)
unfolding begin
Reaches-Below framed opening m chunks t f small short r =
    let i =
      Reaches-IsUpload framed m (joined chunks) (begin opening chunks) t f
        (record { short = short; whole = refl; within = omega arith }) r in
    (
      Below-more (upload_buf_cap + overhang m t.phase) (upload_buf_cap + (m + 9)) t.buffer
          (omega (arith, overhang_le m t.phase)) i.within,
      i.whole,
    )
