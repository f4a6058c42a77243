-- ===== src/H3/Queues.antt =====
-- The queues: each stream gets the items of its own events, in their order, and nothing else.
use nim_vortex.Prelude.{
  ℕ, ◌≡◌, ◌≢◌, inl, inr, refl, sym, ap, ◌∙◌, Bool, true, false, Option, none, some, List, [], ◌∷◌,
  ◌++◌, append-nil, append_assoc, ◌==◌, if◌then◌else◌, arith, ==_iff, Bool-cases, Option-cases,
}
use nim_vortex.H3.{
  Item, Queues, queue_of, put, put_all, put_everywhere, H3Event, items_of, stream_id, on_h3, Client,
  on_h3_events,
}

queue_of-put :
    (sid i : ℕ) (item : Item) (qs : Queues) (q : List Item)
    → queue_of sid qs ≡ some q
    → queue_of sid (put i item qs) ≡ some (q ++ (if sid == i then item ∷ [] else []))
unfolding queue_of put
queue_of-put sid i item [] q h = cc
queue_of-put sid i item ((j, p) ∷ qs) q h =
    ground (arith, queue_of-put sid i item qs q, append-nil q)

pub queue_of-put_self :
    (sid : ℕ) (item : Item) (qs : Queues) (q : List Item)
    → queue_of sid qs ≡ some q
    → queue_of sid (put sid item qs) ≡ some (q ++ item ∷ [])
queue_of-put_self sid item qs q h = ground (arith, queue_of-put sid sid item qs q h)

pub queue_of-put_everywhere :
    (sid : ℕ) (item : Item) (qs : Queues) (q : List Item)
    → queue_of sid qs ≡ some q
    → queue_of sid (put_everywhere item qs) ≡ some (q ++ item ∷ [])
unfolding queue_of put_everywhere
queue_of-put_everywhere sid item [] q h = cc
queue_of-put_everywhere sid item ((j, p) ∷ qs) q h =
    ground (arith, queue_of-put_everywhere sid item qs q)

abbrev pub only_if : Bool → List Item → List Item
only_if true items = items
only_if false items = []

queue_of-put_all :
    (sid i : ℕ) (items : List Item) (qs : Queues) (q : List Item)
    → queue_of sid qs ≡ some q
    → queue_of sid (put_all i items qs) ≡ some (q ++ only_if (sid == i) items)
unfolding put_all
queue_of-put_all sid i [] qs q h = ground (arith, append-nil q)
queue_of-put_all sid i (item ∷ items) qs q h = ground (
  arith,
  queue_of-put_all sid i items (put i item qs) (q ++ (if sid == i then item ∷ [] else []))
      (queue_of-put sid i item qs q h),
  append_assoc q (item ∷ []) items,
  append-nil q,
)

-- The items of an event, of which there are none when it raises.
unfoldable pub items_or_nil : H3Event → List Item
items_or_nil e = elim (items_of e) [ none ↦ [] | some items ↦ items ]

-- What a run of events puts into the queue of `sid`.
unfoldable pub delivered : ℕ → List H3Event → List Item
delivered sid [] = []
delivered sid (e ∷ es) = only_if (sid == stream_id e) (items_or_nil e) ++ delivered sid es

on_h3-closed : (e : H3Event) (qs : Queues) → queue_of (stream_id e) qs ≡ none → on_h3 e qs ≡ some qs
unfolding on_h3
on_h3-closed e qs h = rw (h, on_h3) refl

on_h3-raises :
    (e : H3Event) (qs : Queues) (q : List Item)
    → queue_of (stream_id e) qs ≡ some q
    → items_of e ≡ none
    → on_h3 e qs ≡ none
unfolding on_h3
on_h3-raises e qs q h i = rw (h, i, on_h3) refl

on_h3-open :
    (e : H3Event) (qs : Queues) (q items : List Item)
    → queue_of (stream_id e) qs ≡ some q
    → items_of e ≡ some items
    → on_h3 e qs ≡ some (put_all (stream_id e) items qs)
unfolding on_h3
on_h3-open e qs q items h i = rw (h, i, on_h3) refl

items_or_nil_lem :
    (e : H3Event) (items : List Item) → items_of e ≡ some items → items_or_nil e ≡ items
unfolding items_or_nil
items_or_nil_lem e items h = rw (h, items_or_nil) refl

some-injective {ℓ} : {A : Type ℓ} (x y : A) → some x ≡ some y → x ≡ y
some-injective x y h = cc

none-some {ℓ} : {A : Type ℓ} (o : Option A) (x : A) → o ≡ none → o ≢ some x
none-some o x h k = cc

true-false : true ≢ false
true-false h = cc

other_stream :
    (sid i : ℕ) (qs : Queues) (q : List Item)
    → queue_of sid qs ≡ some q
    → queue_of i qs ≡ none
    → (sid == i) ≡ false
other_stream sid i qs q h k = elim (Bool-cases (sid == i)) [
  | inl e ↦
      absurd (
        none-some (queue_of i qs) q k
          (ap (λ (j : ℕ). queue_of j qs) (sym ((==_iff sid i).0 e)) ∙ h))
  | inr n ↦ n
]

on_h3_lem :
    (sid : ℕ) (e : H3Event) (qs qs' : Queues) (q : List Item)
    → queue_of sid qs ≡ some q
    → on_h3 e qs ≡ some qs'
    → queue_of sid qs' ≡ some (q ++ only_if (sid == stream_id e) (items_or_nil e))
on_h3_lem sid e qs qs' q h r = elim (Option-cases (queue_of (stream_id e) qs)) [
  | inl k ↦
      rw
        (
          sym (some-injective qs qs' (sym (on_h3-closed e qs k) ∙ r)),
          other_stream sid (stream_id e) qs q h k,
          append-nil q,
        )
        h
  | inr (p, k) ↦ elim (Option-cases (items_of e)) [
    | inl i ↦ absurd (none-some (on_h3 e qs) qs' (on_h3-raises e qs p k i) r)
    | inr (items, i) ↦
        rw
          (
            sym (some-injective _ qs' (sym (on_h3-open e qs p items k i) ∙ r)),
            items_or_nil_lem e items i,
          )
          (queue_of-put_all sid (stream_id e) items qs q h)
  ]
]

on_h3_events-raises :
    (e : H3Event) (es : List H3Event) (c : Client)
    → on_h3 e c.queues ≡ none
    → (on_h3_events (e ∷ es) c).raised ≡ true
unfolding on_h3_events
on_h3_events-raises e es c h = rw (h, on_h3_events) refl

on_h3_events-goes_on :
    (e : H3Event) (es : List H3Event) (c : Client) (qs : Queues)
    → on_h3 e c.queues ≡ some qs
    → on_h3_events (e ∷ es) c ≡ on_h3_events es (record c { queues = qs })
unfolding on_h3_events
on_h3_events-goes_on e es c qs h = rw (h, on_h3_events) refl

-- Whatever streams the events of a connection interleave, and unless one of them made the client raise,
-- an open stream's queue has grown by the items of its own events, in their order.
pub queue_of-on_h3_events :
    (sid : ℕ) (es : List H3Event) (c : Client) (q : List Item)
    → queue_of sid c.queues ≡ some q
    → (on_h3_events es c).raised ≡ false
    → queue_of sid (on_h3_events es c).queues ≡ some (q ++ delivered sid es)
unfolding delivered
queue_of-on_h3_events sid [] c q h r =
    unfold on_h3_events in unfold delivered in rw (append-nil q) h
queue_of-on_h3_events sid (e ∷ es) c q h r = elim (Option-cases (on_h3 e c.queues)) [
  | inl n ↦ absurd (true-false (sym (on_h3_events-raises e es c n) ∙ r))
  | inr (qs, k) ↦
      let on = on_h3_events-goes_on e es c qs k in
      let own = only_if (sid == stream_id e) (items_or_nil e) in
      rw on (
        queue_of-on_h3_events sid es (record c { queues = qs }) (q ++ own)
          (on_h3_lem sid e c.queues qs q h k) (sym (ap (λ (d : Client). d.raised) on) ∙ r)
        ∙ ap some (append_assoc q own (delivered sid es)))
]
