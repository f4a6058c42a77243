-- ===== src/H3/Session/Queued.antt =====
-- Which streams keep a queue: those that a caller holds, and those whose wait was cut short.
use nim_vortex.Prelude.{
  ℕ, ◌≡◌, refl, ap, ◌∙◌, Bool, true, false, not, List, [], ◌∷◌, ◌++◌, ◌==◌, if◌then◌else◌, arith,
}
use nim_vortex.Prelude.Bytes.{Bytes}
use nim_vortex.H3.{Head, Item, Queues, no_head, pop, open_queue, head, data_item, err, end_item}
use nim_vortex.H3.Requests.{read_reply}
use nim_vortex.H3.Session.{
  Sent, Link, send, open_stream, forget, send_content, is_empty, unless_waiting, requesting,
  streaming, send_chunks, uploading, on_items, opening_ws, ws_send, abort_stream, Call, request,
  stream, upload, open_ws, stream_open, call, Step, calls, sends, closes, aborts, step, run,
}

unfoldable pub ids : Queues → List ℕ
ids [] = []
ids ((i, q) ∷ qs) = i ∷ ids qs

unfoldable pub has : ℕ → List ℕ → Bool
has sid [] = false
has sid (i ∷ is) = if sid == i then true else has sid is

unfoldable pub remove : ℕ → List ℕ → List ℕ
remove sid [] = []
remove sid (i ∷ is) = if sid == i then is else i ∷ remove sid is

-- An error or the end of the stream is among the items.
unfoldable pub finishes : List Item → Bool
finishes [] = false
finishes (head h ∷ q) = finishes q
finishes (data_item d ∷ q) = finishes q
finishes (err text ∷ q) = true
finishes (end_item ∷ q) = true

-- The first item that is not data is an error.
unfoldable pub breaks : List Item → Bool
breaks [] = false
breaks (head h ∷ q) = false
breaks (data_item d ∷ q) = breaks q
breaks (err text ∷ q) = true
breaks (end_item ∷ q) = false

-- Whether a call leaves its stream with a queue.
unfoldable pub is_left : Call → Bool
is_left (request method path hdrs content items) = not (finishes items)
is_left (stream method path hdrs) = false
is_left (upload path hdrs chunks whole) = false
is_left (open_ws path subprotocols items) = not (breaks items)
is_left (stream_open method path hdrs) = true

-- The streams with a queue, as the steps name them.
unfoldable pub registered : Step → List ℕ → List ℕ
registered (calls sid c) is = if is_left c then is ++ sid ∷ [] else is
registered (sends sid opcode message) is = is
registered (closes sid) is = remove sid is
registered (aborts sid code raised finished) is = remove sid is

unfoldable pub registry : List Step → List ℕ → List ℕ
registry [] is = is
registry (s ∷ ss) is = registry ss (registered s is)

-- Each call is on a stream that has no queue.
unfoldable pub is_new : Step → List ℕ → Bool
is_new (calls sid c) is = not (has sid is)
is_new (sends sid opcode message) is = true
is_new (closes sid) is = true
is_new (aborts sid code raised finished) is = true

unfoldable pub AreNew : List Step → List ℕ → Type 0
AreNew [] is = Unit
AreNew (s ∷ ss) is = (is_new s is ≡ true) × AreNew ss (registered s is)

ids-pop : (sid : ℕ) (qs : Queues) → ids (pop sid qs) ≡ remove sid (ids qs)
unfolding ids pop remove
ids-pop sid [] = refl
ids-pop sid ((i, q) ∷ qs) = ground (arith, ids-pop sid qs)

ids-open_queue :
    (sid : ℕ) (qs : Queues)
    → has sid (ids qs) ≡ false
    → ids (open_queue sid qs) ≡ ids qs ++ sid ∷ []
unfolding ids open_queue has
ids-open_queue sid [] h = refl
ids-open_queue sid ((i, q) ∷ qs) h = ground (arith, ids-open_queue sid qs)

remove-append : (sid : ℕ) (is : List ℕ) → has sid is ≡ false → remove sid (is ++ sid ∷ []) ≡ is
unfolding remove has
remove-append sid [] h = ground arith
remove-append sid (i ∷ is) h = ground (arith, remove-append sid is)

-- A call forgets its queue, or does not.
ids-forget :
    (sid : ℕ) (l : Link) (is : List ℕ)
    → has sid is ≡ false
    → ids l.queues ≡ is ++ sid ∷ []
    → ids (forget sid l).queues ≡ is
unfolding forget
ids-forget sid l is h e = ids-pop sid l.queues ∙ (ap (remove sid) e ∙ remove-append sid is h)

queues-send_chunks :
    (sid : ℕ) (cs : List Bytes) (l : Link) → (send_chunks sid cs l).queues ≡ l.queues
unfolding send_chunks send
queues-send_chunks sid [] l = refl
queues-send_chunks sid (c ∷ cs) l = queues-send_chunks sid cs (send _ l)

queues-send_content : (sid : ℕ) (s : Bytes) (l : Link) → (send_content sid s l).queues ≡ l.queues
unfolding send_content is_empty send
queues-send_content sid [] l = refl
queues-send_content sid (c ∷ s) l = refl

ids-unless_waiting :
    (h : Head) (body : Bytes) (items : List Item) (sid : ℕ) (l : Link) (is : List ℕ)
    → has sid is ≡ false
    → ids l.queues ≡ is ++ sid ∷ []
    → ids (unless_waiting (read_reply h body items) sid l).queues
      ≡ (if not (finishes items) then is ++ sid ∷ [] else is)
unfolding unless_waiting read_reply finishes
ids-unless_waiting h body [] sid l is new e = e
ids-unless_waiting h body (head h' ∷ q) sid l is new e = ids-unless_waiting h' body q sid l is new e
ids-unless_waiting h body (data_item d ∷ q) sid l is new e =
    ids-unless_waiting h (body ++ d) q sid l is new e
ids-unless_waiting h body (err text ∷ q) sid l is new e = ids-forget sid l is new e
ids-unless_waiting h body (end_item ∷ q) sid l is new e = ids-forget sid l is new e

ids-on_items :
    (items : List Item) (sid : ℕ) (l : Link) (is : List ℕ)
    → has sid is ≡ false
    → ids l.queues ≡ is ++ sid ∷ []
    → ids (on_items items sid l).queues ≡ (if not (breaks items) then is ++ sid ∷ [] else is)
unfolding on_items breaks
ids-on_items [] sid l is new e = e
ids-on_items (head h ∷ q) sid l is new e = e
ids-on_items (data_item d ∷ q) sid l is new e = ids-on_items q sid l is new e
ids-on_items (err text ∷ q) sid l is new e = ids-forget sid l is new e
ids-on_items (end_item ∷ q) sid l is new e = e

queues-last :
    (whole : Bool) (xs : List Sent) (l : Link) → (if whole then send xs l else l).queues ≡ l.queues
unfolding send
queues-last true xs l = refl
queues-last false xs l = refl

ids-call :
    (sid : ℕ) (c : Call) (l : Link)
    → has sid (ids l.queues) ≡ false
    → ids (call sid c l).queues ≡ registered (calls sid c) (ids l.queues)
unfolding call registered is_left requesting streaming uploading opening_ws open_stream
ids-call sid (request method path hdrs content items) l new =
    ids-unless_waiting no_head [] items sid _ (ids l.queues) new
      (ap ids (queues-send_content sid content _) ∙ ids-open_queue sid l.queues new)
ids-call sid (stream method path hdrs) l new =
    ids-forget sid _ (ids l.queues) new (ids-open_queue sid l.queues new)
ids-call sid (upload path hdrs chunks whole) l new = ids-forget sid _ (ids l.queues) new (
    ap ids (queues-last whole _ _ ∙ queues-send_chunks sid chunks _)
    ∙ ids-open_queue sid l.queues new)
ids-call sid (open_ws path subprotocols items) l new =
    ids-on_items items sid _ (ids l.queues) new (ids-open_queue sid l.queues new)
ids-call sid (stream_open method path hdrs) l new = ids-open_queue sid l.queues new

not-false : (b : Bool) → not b ≡ true → b ≡ false
not-false true h = ground arith
not-false false h = refl

ids-step :
    (s : Step) (l : Link)
    → is_new s (ids l.queues) ≡ true
    → ids (step s l).queues ≡ registered s (ids l.queues)
unfolding step is_new
ids-step (calls sid c) l new = ids-call sid c l (not-false (has sid (ids l.queues)) new)
ids-step (sends sid opcode message) l new = unfold registered ws_send send in refl
ids-step (closes sid) l new = unfold registered forget in ids-pop sid l.queues
ids-step (aborts sid code raised finished) l new =
    unfold registered abort_stream forget send in ids-pop sid l.queues

-- Over any run of calls, each on a stream that has no queue at the time, of sends, closes and aborts, the
-- streams with a queue are those that the run leaves one: a request whose items neither end nor fail, a
-- `stream_open`, and a `ws_open` unless an error is what ends its wait; each until it is closed or aborted.
-- A `stream` and an `upload` leave none, however they end.
pub run-registry :
    (ss : List Step) (l : Link)
    → AreNew ss (ids l.queues)
    → ids (run ss l).queues ≡ registry ss (ids l.queues)
unfolding run registry AreNew
run-registry [] l new = refl
run-registry (s ∷ ss) l (new, rest) =
    run-registry ss (step s l) (rw (ids-step s l new) rest) ∙ ap (registry ss) (ids-step s l new)
