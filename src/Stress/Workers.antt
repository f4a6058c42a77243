-- ===== src/Stress/Workers.antt =====
-- The workers of conformance/stress/client/stress_client.py that verify every answer: what they share.
-- A worker counts what it has verified, and raises on the first defect. Its session, its answers and how
-- many rounds it begins before the deadline come in as arguments.
pub mod Judged
pub mod Requests
pub mod Methods
pub mod Echo
pub mod Drive
pub mod Tests
use nim_vortex.Prelude.{
  ℕ, Bool, true, false, Option, none, some, List, [], ◌∷◌, ◌++◌, length, get_elem?, ◌%◌,
  if◌then◌else◌,
}
use nim_vortex.Prelude.Bytes.{Bytes, codes}
use nim_vortex.Stress.{Counters, Config, Fault, fail, other_error, bump}

-- An exception as `drive` tells them apart: a ProtocolPinError, a transport error with its type, or another.
pub data Trouble : Type 0 where
  pin_error : Bytes → Trouble
  transport_error : Bytes → Bytes → Trouble
  fault : Fault → Trouble

pub data Result {ℓ} (A : Type ℓ) : Type ℓ where
  ok : A → Result A
  raises : Trouble → Result A

-- Code that counts, and may raise.
abbrev pub M : Type 0 → Type 0
M A = Counters → Counters × Result A

abbrev pub follow : {A B : Type 0} → Counters × Result A → (A → M B) → Counters × Result B
follow (c, ok a) f = f a c
follow (c, raises t) f = (c, raises t)

infixl 5 ◌>>=◌ ◌>>◌
abbrev pub ◌>>=◌ : {A B : Type 0} → M A → (A → M B) → M B
◌>>=◌ m f c = follow (m c) f

abbrev pub ◌>>◌ : {B : Type 0} → M (Unit {0}) → M B → M B
m >> k = m >>= λ _. k

abbrev pub finish : M (Unit {0})
finish c = (c, ok tt)

-- `if not b: raise Fail(text)`
unfoldable pub require : Bool → Bytes → M (Unit {0})
require true text c = (c, ok tt)
require false text c = (c, raises (fault (fail text)))

-- `bump(status)`
unfoldable pub bumped : Config → ℕ → M (Unit {0})
bumped cfg st c = (bump cfg.mixed cfg.tag st 1 c, ok tt)

-- What a request comes to: the status, the content-type and the body, or an exception.
pub data Answer : Type 0 where
  replied : ℕ → Bytes → Bytes → Answer
  broken : Trouble → Answer

unfoldable pub answered : Answer → M (ℕ × Bytes × Bytes)
answered (replied st ct b) c = (c, ok (st, ct, b))
answered (broken t) c = (c, raises t)

-- `xs[k % len(xs)]`
unfoldable pub cycled {ℓ} : {A : Type ℓ} → List A → ℕ → Option A
cycled xs k = get_elem? xs (k % length xs)

unfoldable pub or_raise : Option Trouble → M (Unit {0})
or_raise none c = (c, ok tt)
or_raise (some t) c = (c, raises t)

-- `async with session()`: an exception on leaving takes the place of one from inside.
unfoldable pub left_with :
    Option Trouble → Counters × Result (Unit {0}) → Counters × Result (Unit {0})
left_with none r = r
left_with (some t) (c, r) = (c, raises t)

unfoldable pub in_session : Option Trouble → Option Trouble → M (Unit {0}) → M (Unit {0})
in_session opening leaving body = or_raise opening >> λ c. left_with leaving (body c)
