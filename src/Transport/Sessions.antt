-- ===== src/Transport/Sessions.antt =====
-- The sessions of conformance/stress/client/transport.py: the pin of the protocol version that every
-- response of httpx must pass, and the compression of request bodies. A response comes in as httpx
-- gives it; the compressors are arguments.
pub mod Decodes
use nim_vortex.Prelude.{
  ℕ, Bool, true, false, Option, none, some, List, [], ◌∷◌, ◌++◌, if◌then◌else◌,
}
use nim_vortex.Prelude.Bytes.{Bytes, codes, equal}
use nim_vortex.Prelude.Dict.{lookup}

-- A response of httpx: its version, its status, its content-type if it has one, and its body, which a
-- stream hands over in chunks.
pub record Response : Type 0 where
  pub version : Bytes
  pub status : ℕ
  pub ct : Option Bytes
  pub chunks : List Bytes

-- `_PIN_VERSION.get(PROTO)`
unfoldable pub pin_version : Bytes → Option Bytes
pin_version proto =
    lookup proto ((codes "h1", codes "HTTP/1.1") ∷ (codes "h2", codes "HTTP/2") ∷ [])

unfoldable pub meets : Option Bytes → Bytes → Bool
meets none version = true
meets (some want) version = equal version want

-- `_pin_check(r)`: whether it raises no ProtocolPinError
unfoldable pub pin_check : Bytes → Response → Bool
pin_check proto r = meets (pin_version proto) r.version

-- What a call returns, or the ProtocolPinError.
pub data Fetched {ℓ} (A : Type ℓ) : Type ℓ where
  fetched : A → Fetched A
  pin_error : Fetched A

unfoldable pub pinned {ℓ} : {A : Type ℓ} → Bool → A → Fetched A
pinned true a = fetched a
pinned false a = pin_error

unfoldable pub or_empty : Option Bytes → Bytes
or_empty none = []
or_empty (some v) = v

unfoldable pub content : List Bytes → Bytes
content [] = []
content (d ∷ ds) = d ++ content ds

-- `get` and `request`: the status, the content-type and the body
unfoldable pub get : Bytes → Response → Fetched (ℕ × Bytes × Bytes)
get proto r = pinned (pin_check proto r) (r.status, or_empty r.ct, content r.chunks)

-- `stream`: the status, and then the chunks
unfoldable pub stream : Bytes → Response → Fetched (ℕ × List Bytes)
stream proto r = pinned (pin_check proto r) (r.status, r.chunks)

unfoldable pub upload : Bytes → Response → Fetched ℕ
upload proto r = pinned (pin_check proto r) r.status

-- The compressors, which the client imports.
pub record Compressors : Type 0 where
  pub gzip : Bytes → Bytes
  pub brotli : Bytes → Bytes
  pub zstd : Bytes → Bytes

-- `compress(raw)` for REQ_COMP, or the SystemExit for a name that it does not know.
unfoldable pub compress : Compressors → Bytes → Bytes → Option (Bytes × Option Bytes)
compress cs comp raw =
    if equal comp []
    then some (raw, none)
    else if equal comp (codes "none")
    then some (raw, none)
    else if equal comp (codes "gzip")
    then some (cs.gzip raw, some (codes "gzip"))
    else if equal comp (codes "br")
    then some (cs.brotli raw, some (codes "br"))
    else if equal comp (codes "zstd")
    then some (cs.zstd raw, some (codes "zstd"))
    else none

-- ACCEPT, for RESP_COMP
unfoldable pub accept : Bytes → Option Bytes
accept [] = none
accept (c ∷ comp) = if equal (c ∷ comp) (codes "none") then none else some (c ∷ comp)
