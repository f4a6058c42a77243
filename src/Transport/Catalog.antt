-- ===== src/Transport/Catalog.antt =====
-- `payload_mix` and `expected_gets` of conformance/stress/client/transport.py. The random bodies and the
-- texts of the floating-point numbers are arguments.
use nim_vortex.Prelude.{
  ℕ, zero, suc, ◌+◌, ◌*◌, ◌/◌, ◌%◌, Bool, ◌&&◌, ◌||◌, List, [], ◌∷◌, ◌++◌, length, take, replicate,
  ltb, leb, ◌==◌, ◌-◌, if◌then◌else◌,
}
use nim_vortex.Prelude.Bytes.{Bytes, codes}
use nim_vortex.Prelude.Text.{join_comma, show}
use nim_vortex.Transport.{repeat, gen_chunk}

abbrev pub crlf : Bytes
crlf = 13 ∷ 10 ∷ []

-- `b"".join(parts)`
unfoldable pub join : List Bytes → Bytes
join [] = []
join (p ∷ ps) = p ++ join ps

-- The items of a loop over `range(i, i + n)`.
unfoldable pub each : (ℕ → Bytes) → ℕ → ℕ → List Bytes
each item zero i = []
each item (suc n) i = item i ∷ each item n (suc i)

-- `(b"the quick brown fox " * (n // 20 + 1))[:n]`
unfoldable pub fox_text : ℕ → Bytes
fox_text n = take n (repeat (n / 20 + 1) (codes "the quick brown fox "))

-- `_MP_BOUNDARY`
abbrev pub mp_boundary : Bytes
mp_boundary = codes "----vortexstressBoundary7MA4YWxkTrZu0gW"

abbrev pub dash : Bytes → Bytes
dash boundary = codes "--" ++ boundary

-- `_multipart_body(boundary)`
unfoldable pub multipart_body : Bytes → Bytes
multipart_body boundary = join (
    (dash boundary ++ crlf)
    ∷ (codes "Content-Disposition: form-data; name=\"field1\"" ++ (crlf ++ crlf))
    ∷ (codes "the quick brown fox" ++ crlf)
    ∷ (dash boundary ++ crlf)
    ∷ (codes "Content-Disposition: form-data; name=\"field2\"" ++ (crlf ++ crlf))
    ∷ (codes "jumps over the lazy dog" ++ crlf)
    ∷ (dash boundary ++ crlf)
    ∷ (codes "Content-Disposition: form-data; name=\"file\"; filename=\"blob.bin\"" ++ crlf)
    ∷ (codes "Content-Type: application/octet-stream" ++ (crlf ++ crlf))
    ∷ gen_chunk 0 4096
    ∷ crlf
    ∷ (dash boundary ++ (codes "--" ++ crlf))
    ∷ [])

-- `f"{n:04d}"` and the like
unfoldable pub padded : ℕ → ℕ → Bytes
padded width n = let digits = show n in replicate (width - length digits) b'0' ++ digits

-- `json.dumps(obj)`
unfoldable pub json_object : Bytes
json_object =
    codes "{\"user\": \"alice\", \"id\": 42, \"active\": true, \"score\": 3.14, "
    ++ (codes
          "\"tags\": [\"a\", \"b\", \"c\"], \"meta\": {\"role\": \"admin\", \"seen\": 7}, \"note\": \""
        ++ (replicate 180 b'x' ++ codes "\"}"))

-- One object of `arr`, where `ratio i` is the text of `i * 0.12345`.
unfoldable pub json_item : (ℕ → Bytes) → ℕ → Bytes
json_item ratio i = join (
    codes "{\"id\": "
    ∷ show i
    ∷ codes ", \"name\": \"name-"
    ∷ padded 4 i
    ∷ codes "\", \"ts\": \"2026-09-21T00:"
    ∷ padded 2 (i % 60)
    ∷ codes ":00Z\", \"ratio\": "
    ∷ ratio i
    ∷ codes ", \"ok\": "
    ∷ (if i % 2 == 0 then codes "true" else codes "false")
    ∷ codes "}"
    ∷ [])

-- `json.dumps(arr)`
unfoldable pub json_array : (ℕ → Bytes) → Bytes
json_array ratio = codes "[" ++ (join_comma (each (json_item ratio) 100 0) ++ codes "]")

unfoldable pub is_unreserved : ℕ → Bool
is_unreserved c =
    (leb b'a' c && leb c b'z')
    || (leb b'A' c && leb c b'Z')
    || (leb b'0' c && leb c b'9')
    || c == b'_'
    || c == b'.'
    || c == b'-'
    || c == b'~'

unfoldable pub hex_digit : ℕ → ℕ
hex_digit d = if ltb d 10 then b'0' + d else b'A' + (d - 10)

-- `quote_plus` of a text in UTF-8
unfoldable pub quote_plus : Bytes → Bytes
quote_plus [] = []
quote_plus (c ∷ s) =
    let rest = quote_plus s in
    if is_unreserved c
    then c ∷ rest
    else if c == b' '
    then b'+' ∷ rest
    else b'%' ∷ hex_digit (c / 16) ∷ hex_digit (c % 16) ∷ rest

-- `urlencode(form)`
unfoldable pub urlencode : List (Bytes × Bytes) → Bytes
urlencode [] = []
urlencode ((k, v) ∷ []) = quote_plus k ++ (b'=' ∷ quote_plus v)
urlencode ((k, v) ∷ f ∷ form) =
    quote_plus k ++ (b'=' ∷ (quote_plus v ++ (b'&' ∷ urlencode (f ∷ form))))

-- "café naïve ✓" in UTF-8
abbrev unicode : Bytes
unicode =
    codes "caf"
    ++ (0xc3 ∷ 0xa9 ∷ codes " na")
    ++ (0xc3 ∷ 0xaf ∷ codes "ve ")
    ++ (0xe2 ∷ 0x9c ∷ 0x93 ∷ [])

abbrev pub form_fields : List (Bytes × Bytes)
form_fields =
    (codes "q", codes "the quick & brown = fox")
    ∷ (codes "name", codes " query with spaces")
    ∷ (codes "sym", codes "a&b=c d")
    ∷ (codes "u", unicode)
    ∷ []

unfoldable pub xml_item : ℕ → Bytes
xml_item i =
    codes "<item id=\"" ++ (show i ++ codes "\">The quick brown fox jumps over the lazy dog</item>")

unfoldable pub xml : Bytes
xml =
    codes "<?xml version=\"1.0\" encoding=\"UTF-8\"?><items>"
    ++ (join (each xml_item 40 0) ++ codes "</items>")

unfoldable pub csv_row : ℕ → Bytes
csv_row i = show i ++ (codes ",name-" ++ (show i ++ (codes "," ++ (show (i * i) ++ (10 ∷ [])))))

unfoldable pub csv : Bytes
csv = codes "id,name,value" ++ (10 ∷ join (each csv_row 200 0))

unfoldable pub text_ladder : List ℕ → List (Bytes × Bytes)
text_ladder [] = []
text_ladder (n ∷ ns) = (codes "text/plain", fox_text n) ∷ text_ladder ns

-- `payload_mix()`, with the two random bodies of 64 KiB
unfoldable pub payload_mix : (ℕ → Bytes) → Bytes → Bytes → List (Bytes × Bytes)
payload_mix ratio random_text random_binary =
    text_ladder (0 ∷ 1 ∷ 13 ∷ 1280 ∷ 64 * 1024 ∷ 256 * 1024 ∷ [])
    ++ ((codes "text/plain", random_text)
        ∷ (codes "application/json", json_object)
        ∷ (codes "application/json", json_array ratio)
        ∷ (codes "application/x-www-form-urlencoded", urlencode form_fields)
        ∷ (codes "multipart/form-data; boundary=" ++ mp_boundary, multipart_body mp_boundary)
        ∷ (codes "application/octet-stream", gen_chunk 0 8192)
        ∷ (codes "application/octet-stream", random_binary)
        ∷ (codes "application/xml", xml)
        ∷ (codes "text/csv", csv)
        ∷ (
          codes "text/html",
          codes "<!doctype html><html><body><h1>hi</h1>"
              ++ codes "<p>The quick brown fox.</p></body></html>",
        )
        ∷ [])

-- `html` of `expected_gets`
unfoldable pub html : Bytes
html =
    codes "<!doctype html><html><head><title>vortex stress</title></head><body>"
    ++ (repeat 30 (codes "<p>The quick brown fox jumps over the lazy dog.</p>")
        ++ codes "</body></html>")

-- `expected_gets()`: the path, the content-type and the body of each route
unfoldable pub expected_gets : List (Bytes × Bytes × Bytes)
expected_gets =
    (codes "/plaintext", codes "text/plain", codes "Hello, World!")
    ∷ (codes "/json", codes "application/json", codes "{\"message\":\"Hello, World!\"}")
    ∷ (codes "/html", codes "text/html", html)
    ∷ (codes "/xml", codes "application/xml", xml)
    ∷ (codes "/csv", codes "text/csv", csv)
    ∷ (codes "/binary", codes "application/octet-stream", gen_chunk 0 8192)
    ∷ []
