-- ===== src/Transport.antt =====
-- The deterministic payload of conformance/stress/client/transport.py: byte `i` of a transfer is
-- `i mod 256`, generated in chunks. STREAM and CHUNK are the arguments `stream` and `chunk`. The
-- sessions, the statistics and the catalog of bodies are child modules.
pub mod Payload
pub mod Stats
pub mod Sessions
pub mod Catalog
pub mod Tests
use nim_vortex.Prelude.{
  ℕ, zero, suc, ◌+◌, ◌-◌, ◌*◌, ◌/◌, ◌%◌, ◌^◌, ◌≤◌, ◌<◌, min, max, ◌≡◌, ◌≢◌, ◌⊎◌, inl, inr, ◌↔◌,
  refl, sym, ap, ◌∙◌, Bool, true, false, not, ◌&&◌, ◌||◌, Option, none, some, List, [], ◌∷◌, ◌++◌,
  map, append-nil, append_assoc, length, get_elem?, get_or, take, drop, replicate, ltb, leb, ◌==◌,
  if◌then◌else◌, arith, ltb→lt, lt→ltb, leb→le, ==_iff, Bool-cases, Option-cases, length-append,
  length-take, length-drop, take-append-drop, take-append, drop-append, drop-nil, drop-drop,
  get_or-drop, get_or-append_left, drop-append_left, take-append_left, slice-append_left, drop_all,
}
use nim_vortex.Prelude.Bytes.{Bytes}

-- `bytes(range(i, i + n))`
unfoldable pub byte_range : ℕ → ℕ → Bytes
byte_range i zero = []
byte_range i (suc n) = i ∷ byte_range (suc i) n

-- `_PAT`
unfoldable pub pat : Bytes
pat = byte_range 0 256

-- `rot * reps`
unfoldable pub repeat : ℕ → Bytes → Bytes
repeat zero rot = []
repeat (suc reps) rot = rot ++ repeat reps rot

-- `gen_chunk(start, n)`
unfoldable pub gen_chunk : ℕ → ℕ → Bytes
gen_chunk start n =
    let s = start % 256 in let rot = drop s pat ++ take s pat in take n (repeat (n / 256 + 1) rot)

-- The chunks that `body_gen` yields, and that `expected_sha1` feeds to the hash, from `off` on; nothing
-- when the fuel does not suffice, as no fuel does where CHUNK is 0.
unfoldable pub body_from : ℕ → ℕ → ℕ → ℕ → Option (List Bytes)
body_from zero stream chunk off = none
body_from (suc fuel) stream chunk off = elim (ltb off stream) [
  | false ↦ some []
  | true ↦ elim (body_from fuel stream chunk (off + min chunk (stream - off))) [
    | none ↦ none
    | some ds ↦ some (gen_chunk off (min chunk (stream - off)) ∷ ds)
  ]
]

unfoldable pub body_gen : ℕ → ℕ → Option (List Bytes)
body_gen stream chunk = body_from (suc stream) stream chunk 0
