-- ===== src/H3/Responses.antt =====
-- A request puts the response of its stream together again, however streams interleave.
use nim_vortex.Prelude.{
  ℕ, ◌≡◌, inl, inr, refl, ap, ◌∙◌, Bool, true, false, some, List, [], ◌∷◌, ◌++◌, append-nil,
  append_assoc, ◌==◌, if◌then◌else◌, arith, Bool-cases,
}
use nim_vortex.Prelude.Bytes.{Bytes}
use nim_vortex.H3.{
  Head, Item, head, queue_of, H3Event, headers_received, data_received, read_headers, no_head,
  ending, data_items, items_of, stream_id, Client, on_h3_events,
}
use nim_vortex.H3.Queues.{items_or_nil, delivered, queue_of-on_h3_events}
use nim_vortex.H3.Requests.{replied, read_reply}

-- The events of the stream `sid` alone.
unfoldable pub of_stream : ℕ → List H3Event → List H3Event
of_stream sid [] = []
of_stream sid (e ∷ es) = if sid == stream_id e then e ∷ of_stream sid es else of_stream sid es

-- A response: its headers and the chunks of its body, the last of them with the end of the stream.
unfoldable pub response_body : ℕ → Bytes → List Bytes → List H3Event
response_body sid d [] = data_received sid d true ∷ []
response_body sid d (d' ∷ ds) = data_received sid d false ∷ response_body sid d' ds

unfoldable pub response : ℕ → List (Bytes × Bytes) → List Bytes → List H3Event
response sid headers [] = headers_received sid headers true ∷ []
response sid headers (d ∷ ds) = headers_received sid headers false ∷ response_body sid d ds

unfoldable pub joined : List Bytes → Bytes
joined [] = []
joined (d ∷ ds) = d ++ joined ds

delivered-of_stream :
    (sid : ℕ) (es : List H3Event) → delivered sid es ≡ delivered sid (of_stream sid es)
unfolding delivered of_stream
delivered-of_stream sid [] = refl
delivered-of_stream sid (e ∷ es) = elim (Bool-cases (sid == stream_id e)) [
  | inl y ↦ rw (y, y) (ap (λ t. items_or_nil e ++ t) (delivered-of_stream sid es))
  | inr n ↦ rw n (delivered-of_stream sid es)
]

same : (n : ℕ) → (n == n) ≡ true
same n = ground arith

read_reply-body :
    (sid : ℕ) (h : Head) (body d : Bytes) (ds : List Bytes)
    → read_reply h body (delivered sid (response_body sid d ds))
      ≡ replied (h, body ++ joined (d ∷ ds))
unfolding read_reply delivered response_body joined items_or_nil items_of ending data_items
    stream_id
read_reply-body sid h body [] [] = rw (same sid, append-nil body) refl
read_reply-body sid h body (x ∷ d) [] = rw (same sid, append-nil (x ∷ d)) refl
read_reply-body sid h body [] (d' ∷ ds) = rw (same sid) (read_reply-body sid h body d' ds)
read_reply-body sid h body (x ∷ d) (d' ∷ ds) = rw (same sid) (
    read_reply-body sid h (body ++ x ∷ d) d' ds
    ∙ ap (λ t. replied (h, t)) (append_assoc body (x ∷ d) (joined (d' ∷ ds))))

items_or_nil-headers :
    (sid : ℕ) (headers : List (Bytes × Bytes)) (ended : Bool) (h : Head)
    → read_headers no_head headers ≡ some h
    → items_or_nil (headers_received sid headers ended) ≡ head h ∷ ending ended
unfolding items_or_nil items_of
items_or_nil-headers sid headers ended h e = rw (e, items_of, items_or_nil) refl

response-reply :
    (sid : ℕ) (headers : List (Bytes × Bytes)) (ds : List Bytes) (h : Head)
    → read_headers no_head headers ≡ some h
    → read_reply no_head [] (delivered sid (response sid headers ds)) ≡ replied (h, joined ds)
unfolding read_reply delivered response joined ending stream_id
response-reply sid headers [] h e = rw (same sid, items_or_nil-headers sid headers true h e) refl
response-reply sid headers (d ∷ ds) h e =
    rw (same sid, items_or_nil-headers sid headers false h e) (read_reply-body sid h [] d ds)

-- A request whose stream is open and still without items gets the server's response back: when the events
-- of its stream are the headers and the chunks of a body, whatever other streams have their events
-- in between, the reader of the queue returns what the headers say and the chunks joined in order.
-- The events make the client not raise, and the headers are such that they can be read.
pub read_reply-on_h3_events :
    (sid : ℕ) (es : List H3Event) (c : Client) (headers : List (Bytes × Bytes)) (ds : List Bytes)
    (h : Head)
    → queue_of sid c.queues ≡ some []
    → (on_h3_events es c).raised ≡ false
    → of_stream sid es ≡ response sid headers ds
    → read_headers no_head headers ≡ some h
    → (q : List Item) × (queue_of sid (on_h3_events es c).queues ≡ some q)
      × (read_reply no_head [] q ≡ replied (h, joined ds))
read_reply-on_h3_events sid es c headers ds h o r own e = (
  delivered sid es,
  queue_of-on_h3_events sid es c [] o r,
  ap (read_reply no_head []) (delivered-of_stream sid es ∙ ap (delivered sid) own)
      ∙ response-reply sid headers ds h e,
)
