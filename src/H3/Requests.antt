-- ===== src/H3/Requests.antt =====
-- `H3Session` of conformance/stress/client/h3.py: what a request sends, and how each reader uses the
-- items of its queue, in their order. A reader that finds no further item waits.
use nim_vortex.Prelude.{
  Bool, false, ◌||◌, Option, none, some, List, [], ◌∷◌, ◌++◌, length, if◌then◌else◌,
}
use nim_vortex.Prelude.Bytes.{Bytes, codes, equal}
use nim_vortex.Prelude.Text.{lower, show}
use nim_vortex.Prelude.Ints.{ℤ}
use nim_vortex.H3.{Head, Item, head, data_item, end_item, err, no_head}

abbrev pub Headers : Type 0
Headers = List (Bytes × Bytes)

-- `any(k.lower() == "content-length" for k in hdrs)`
unfoldable pub has_content_length : Headers → Bool
has_content_length [] = false
has_content_length ((k, v) ∷ hs) = equal (lower k) (codes "content-length") || has_content_length hs

-- The headers of `request`, once the length is advertised.
unfoldable pub request_headers : Headers → Bytes → Headers
request_headers hdrs [] = hdrs
request_headers hdrs (c ∷ content) =
    if has_content_length hdrs
    then hdrs
    else hdrs ++ (codes "content-length", show (length (c ∷ content))) ∷ []

unfoldable pub lower_keys : Headers → Headers
lower_keys [] = []
lower_keys ((k, v) ∷ hs) = (lower k, v) ∷ lower_keys hs

-- The headers that `_open` sends, on ASCII texts.
unfoldable pub open_headers : Bytes → Bytes → Bytes → Headers → Headers
open_headers authority method path headers =
    (codes ":method", method)
    ∷ (codes ":scheme", codes "https")
    ∷ (codes ":authority", authority)
    ∷ (codes ":path", path)
    ∷ lower_keys headers

-- How a reader ends: it waits for an item, it raises ConnectionError, or it returns.
pub data Reply {ℓ} (A : Type ℓ) : Type ℓ where
  waiting : Reply A
  connection_error : Bytes → Reply A
  replied : A → Reply A

-- The loop of `request`: the last head wins and the data is joined.
unfoldable pub read_reply : Head → Bytes → List Item → Reply (Head × Bytes)
read_reply h body [] = waiting
read_reply h body (head h' ∷ q) = read_reply h' body q
read_reply h body (data_item payload ∷ q) = read_reply h (body ++ payload) q
read_reply h body (err text ∷ q) = connection_error text
read_reply h body (end_item ∷ q) = replied (h, body)

-- The decompressors, which the client imports.
pub record Codecs : Type 0 where
  pub gunzip : Bytes → Option Bytes
  pub unbrotli : Bytes → Option Bytes
  pub unzstd : Bytes → Option Bytes

pub data Decoded : Type 0 where
  decoded : Bytes → Decoded
  codec_error : Decoded
  value_error : Bytes → Decoded

unfoldable pub from_codec : Option Bytes → Decoded
from_codec none = codec_error
from_codec (some payload) = decoded payload

-- `decode_body(data, enc)`
unfoldable pub decode_body : Codecs → Bytes → Option Bytes → Decoded
decode_body cs payload none = decoded payload
decode_body cs payload (some []) = decoded payload
decode_body cs payload (some (c ∷ enc)) =
    if equal (c ∷ enc) (codes "identity")
    then decoded payload
    else if equal (c ∷ enc) (codes "gzip")
    then from_codec (cs.gunzip payload)
    else if equal (c ∷ enc) (codes "br")
    then from_codec (cs.unbrotli payload)
    else if equal (c ∷ enc) (codes "zstd")
    then from_codec (cs.unzstd payload)
    else value_error (c ∷ enc)

-- `request`, once it is sent: the status, the content-type and the decoded body.
unfoldable pub answer : Codecs → Reply (Head × Bytes) → Reply (ℤ × Bytes × Decoded)
answer cs waiting = waiting
answer cs (connection_error text) = connection_error text
answer cs (replied (h, body)) = replied (h.status, h.ct, decode_body cs body h.enc)

unfoldable pub request : Codecs → List Item → Reply (ℤ × Bytes × Decoded)
request cs q = answer cs (read_reply no_head [] q)

-- What `stream` yields: the status of each head, and the chunks of the body.
pub data Yielded : Type 0 where
  status : ℤ → Yielded
  chunk : Bytes → Yielded

-- The generator of `stream`, as what it has yielded and how it stands.
unfoldable pub stream : List Item → List Yielded × Reply {0} Unit
stream [] = ([], waiting)
stream (head h ∷ q) = let (ys, r) = stream q in (status h.status ∷ ys, r)
stream (data_item payload ∷ q) = let (ys, r) = stream q in (chunk payload ∷ ys, r)
stream (err text ∷ q) = ([], connection_error text)
stream (end_item ∷ q) = ([], replied tt)

-- The end of `_upload_body`, which waits for the response: body chunks are passed over.
unfoldable pub upload_status : ℤ → List Item → Reply ℤ
upload_status st [] = waiting
upload_status st (head h ∷ q) = upload_status h.status q
upload_status st (data_item payload ∷ q) = upload_status st q
upload_status st (err text ∷ q) = connection_error text
upload_status st (end_item ∷ q) = replied st

-- `ws_open`: the first status, and the items that are left to the tunnel.
unfoldable pub ws_open : List Item → Reply (ℤ × List Item)
ws_open [] = waiting
ws_open (head h ∷ q) = replied (h.status, q)
ws_open (data_item payload ∷ q) = ws_open q
ws_open (err text ∷ q) = connection_error text
ws_open (end_item ∷ q) = connection_error (codes "ws CONNECT stream ended")
