-- ===== src/Chaos/Behaviors.antt =====
-- What the behaviours b_* of conformance/stress/client/chaos.py are made of. A behaviour runs against an
-- environment: a list of replies, one for each call that it makes, which say what the call does and how
-- long it takes, and a list of rolls for its rng. Where no more replies come, the call is cancelled. Times
-- are whole milliseconds.
pub mod Generic
pub mod Vanish
pub mod Targeted
pub mod Leaves
pub mod Sessions
pub mod Closing
pub mod Worker
pub mod Tests
use nim_vortex.Prelude.{
  ℕ, zero, suc, ◌+◌, ◌-◌, ◌*◌, ◌%◌, Bool, true, false, Option, none, some, List, [], ◌∷◌, ◌++◌,
  length, get_elem?, ltb, leb, if◌then◌else◌,
}
use nim_vortex.Prelude.Bytes.{Bytes, codes}

abbrev pub Headers : Type 0
Headers = List (Bytes × Bytes)

-- What a behaviour does: it opens a connection, ends it, leaves it open for good, or acts on it.
pub data Deed : Type 0 where
  get stream_get stream_open upload : Bytes → Headers → Deed
  next close_stream take_item abort_stream : Deed
  sleep : ℕ → Deed
  give : ℕ → ℕ → Deed
  start_upload : Headers → Deed
  cancel_upload await_upload : Deed
  ws_send : ℕ → Bytes → Deed
  ws_open ws_recv ws_close : Deed
  look_up drop_transport linger_zero : Deed
  write : Bytes → Deed
  drain read_some : Deed

pub data Door : Type 0 where
  session websocket socket : Door

pub data Act : Type 0 where
  opens : Door → Act
  ends leaves : Act
  does : Deed → Act

-- What a call does: it raises, or returns; and what it returns, as far as the behaviours look at it.
pub data Kind : Type 0 where
  head chunk over error : Kind

pub record Reply : Type 0 where
  pub raises : Bool
  pub kind : Kind
  pub there : Bool
  pub took : ℕ

-- `except Exception` catches an error, and no cancellation.
pub data Ended {ℓ} (A : Type ℓ) : Type ℓ where
  ok : A → Ended A
  fails : Ended A
  cancelled : Ended A

-- `connects[0]`, the clock, and what has been done, the last first.
pub record World : Type 0 where
  pub replies : List Reply
  pub rolls : List ℕ
  pub clock : ℕ
  pub connects : ℕ
  pub trace : List Act

abbrev pub M : Type 0 → Type 0
M A = World → World × Ended A

unfoldable pub then_run : {A B : Type 0} → World × Ended A → (A → M B) → World × Ended B
then_run (w, ok a) f = f a w
then_run (w, fails) f = (w, fails)
then_run (w, cancelled) f = (w, cancelled)

infixl 5 ◌>>=◌ ◌>>◌
unfoldable pub ◌>>=◌ : {A B : Type 0} → M A → (A → M B) → M B
◌>>=◌ m f w = then_run (m w) f

abbrev pub ◌>>◌ : {B : Type 0} → M (Unit {0}) → M B → M B
m >> k = m >>= λ _. k

unfoldable pub pure : {A : Type 0} → A → M A
pure a w = (w, ok a)

abbrev pub skip : M (Unit {0})
skip = pure tt

unfoldable pub answer : Reply → Ended Reply
answer r = if r.raises then fails else ok r

-- The next reply, where the call is logged.
unfoldable pub take_reply : List Reply → World → World × Ended Reply
take_reply [] w = (w, cancelled)
take_reply (r ∷ rs) w = (record w { replies = rs; clock = w.clock + r.took }, answer r)

unfoldable pub call : Deed → M Reply
call d w = let w' = record w { trace = does d ∷ w.trace } in take_reply w'.replies w'

unfoldable pub act : Deed → M (Unit {0})
act d = do r ← call d; skip

-- `time.monotonic()`
unfoldable pub now : M ℕ
now w = (w, ok w.clock)

-- `await asyncio.sleep(d)`
unfoldable pub wait : ℕ → M (Unit {0})
wait d = do act (sleep d); λ w. (record w { clock = w.clock + d }, ok tt)

-- A draw from the rng.
unfoldable pub take_roll : List ℕ → World → World × Ended ℕ
take_roll [] w = (w, ok 0)
take_roll (n ∷ ns) w = (record w { rolls = ns }, ok n)

unfoldable pub roll : M ℕ
roll w = take_roll w.rolls w

-- `rng.uniform(lo, hi)` in milliseconds, and `rng.randint(lo, hi)`
unfoldable pub between : ℕ → ℕ → M ℕ
between lo hi = do n ← roll; pure (lo + n % suc (hi - lo))

-- `rng.random() < n / 1000`
unfoldable pub chance : ℕ → M Bool
chance n = do k ← roll; pure (ltb (k % 1000) n)

-- `await asyncio.sleep(rng.uniform(lo, hi))`
unfoldable pub doze : ℕ → ℕ → M (Unit {0})
doze lo hi = do d ← between lo hi; wait d

-- `try: … except Exception: pass`
unfoldable pub swallow_end : World × Ended (Unit {0}) → World × Ended (Unit {0})
swallow_end (w, ok u) = (w, ok u)
swallow_end (w, fails) = (w, ok tt)
swallow_end (w, cancelled) = (w, cancelled)

unfoldable pub swallow : M (Unit {0}) → M (Unit {0})
swallow m w = swallow_end (m w)

-- `try: … except (Exception, asyncio.CancelledError): pass`
unfoldable pub swallow_all_end : World × Ended (Unit {0}) → World × Ended (Unit {0})
swallow_all_end (w, ok u) = (w, ok u)
swallow_all_end (w, fails) = (w, ok tt)
swallow_all_end (w, cancelled) = (w, ok tt)

unfoldable pub swallow_all : M (Unit {0}) → M (Unit {0})
swallow_all m w = swallow_all_end (m w)

-- `try: … finally: …`: what the second raises takes the place of what the first ends with.
unfoldable pub ended_as : {A : Type 0} → Ended A → World × Ended (Unit {0}) → World × Ended A
ended_as e (w, ok u) = (w, e)
ended_as e (w, fails) = (w, fails)
ended_as e (w, cancelled) = (w, cancelled)

unfoldable pub after : {A : Type 0} → World × Ended A → M (Unit {0}) → World × Ended A
after (w, e) cleanup = ended_as e (cleanup w)

unfoldable pub finally : {A : Type 0} → M (Unit {0}) → M A → M A
finally cleanup m w = after (m w) cleanup

-- A connection is opened, or that raises; with the `connects[0] += 1` that follows it.
unfoldable pub opened : Door → World × Ended Reply → World × Ended (Unit {0})
opened door (w, ok r) =
    (record w { connects = suc w.connects; trace = opens door ∷ w.trace }, ok tt)
opened door (w, fails) = (w, fails)
opened door (w, cancelled) = (w, cancelled)

unfoldable pub enter : Door → M (Unit {0})
enter door w = opened door (take_reply w.replies w)

unfoldable pub replied : M Reply
replied w = take_reply w.replies w

-- Ending a connection; it is gone whether or not that raises.
unfoldable pub leave : M (Unit {0})
leave w = (do r ← replied; skip) (record w { trace = ends ∷ w.trace })

-- The connection is not ended.
unfoldable pub abandon : M (Unit {0})
abandon w = (record w { trace = leaves ∷ w.trace }, ok tt)

-- A connection that is opened, used, and ended by `quit` however that goes.
unfoldable pub held : Door → M (Unit {0}) → M (Unit {0}) → M (Unit {0})
held door quit body = do enter door; finally quit body

-- `async with session() as s: connects[0] += 1; …`, and the same with `websockets.connect`
unfoldable pub in_session : Door → M (Unit {0}) → M (Unit {0})
in_session door body = held door leave body

-- The kind of an item, as the loops tell them apart.
unfoldable pub is_over : Kind → Bool
is_over over = true
is_over _ = false

-- `async for _chunk in gen: …`, whose body says, of the chunks so far, whether to go on. On fuel as much
-- as there are replies, since a round takes one: without fuel there is none left.
unfoldable pub each_chunk_from : ℕ → ℕ → (ℕ → M Bool) → M (Unit {0})
each_chunk_from zero got body = act next
each_chunk_from (suc fuel) got body = do
  r ← call next
  elim (is_over r.kind) [
    | true ↦ skip
    | false ↦ do
      more ← body (suc got)
      elim more [ true ↦ each_chunk_from fuel (suc got) body | false ↦ skip ]
  ]

unfoldable pub each_chunk : (ℕ → M Bool) → M (Unit {0})
each_chunk body w = each_chunk_from (length w.replies) 0 body w

-- `for _ in range(n): …`
unfoldable pub repeat : ℕ → ℕ → (ℕ → M (Unit {0})) → M (Unit {0})
repeat zero i body = skip
repeat (suc n) i body = do body i; repeat n (suc i) body

abbrev pub event_stream : Headers
event_stream = (codes "accept", codes "text/event-stream") ∷ []

-- `{"x-sha1": "0" * 40}`
abbrev pub wrong_sha1 : Headers
wrong_sha1 = (codes "x-sha1", codes "0000000000000000000000000000000000000000") ∷ []

-- The cell's transport: IS_H3, and of BASE whether it is plain http, the host and the port.
pub record Cell : Type 0 where
  pub is_h3 : Bool
  pub is_http : Bool
  pub host : Bytes
  pub port : Bytes

-- An attribute is looked up, which may not be there.
unfoldable pub found : World × Ended Reply → World × Ended Bool
found (w, ok r) = (w, ok r.there)
found (w, fails) = (w, ok false)
found (w, cancelled) = (w, ok false)

unfoldable pub is_there : M Bool
is_there w = found (call look_up w)

-- `if x is not None: …`
unfoldable pub if_there : Deed → M (Unit {0})
if_there d = do there ← is_there; elim there [ true ↦ act d | false ↦ skip ]

unfoldable pub when : Bool → M (Unit {0}) → M (Unit {0})
when true m = m
when false m = skip
