-- ===== src/Sse.antt =====
-- The lines of an event stream in conformance/stress/client/stress_client.py: `read_lines` cuts them from
-- chunks of bytes. A line stays the bytes it is, which on ASCII are the text that the source decodes.
pub mod Lines
pub mod Feed
pub mod Tests
use nim_vortex.Prelude.{
  ℕ, zero, suc, ◌+◌, ◌-◌, ◌*◌, ◌/◌, ◌%◌, ◌^◌, ◌≤◌, ◌<◌, min, max, ◌≡◌, ◌≢◌, ◌⊎◌, inl, inr, ◌↔◌,
  refl, sym, ap, ◌∙◌, Bool, true, false, not, ◌&&◌, ◌||◌, Option, none, some, List, [], ◌∷◌, ◌++◌,
  map, append-nil, append_assoc, length, get_elem?, get_or, take, drop, replicate, ltb, leb, ◌==◌,
  if◌then◌else◌, arith, ltb→lt, lt→ltb, leb→le, ==_iff, Bool-cases, Option-cases, length-append,
  length-take, length-drop, take-append-drop, take-append, drop-append, drop-nil, drop-drop,
  get_or-drop, get_or-append_left, drop-append_left, take-append_left, slice-append_left, drop_all,
}
use nim_vortex.Prelude.Bytes.{Bytes}
use nim_vortex.Prelude.Text.{partition}

-- `line.rstrip(b"\r")`
unfoldable pub keep_unless_cr : ℕ → Bytes → Bytes
keep_unless_cr c [] = if c == b'\r' then [] else c ∷ []
keep_unless_cr c (d ∷ s) = c ∷ d ∷ s

unfoldable pub rstrip_cr : Bytes → Bytes
rstrip_cr [] = []
rstrip_cr (c ∷ s) = keep_unless_cr c (rstrip_cr s)

-- The loop `while b"\n" in buf`: the lines that it yields, and what is left in the buffer. Each round
-- takes a newline off the buffer, so that its length is fuel enough.
unfoldable pub cut_lines : ℕ → Bytes → List Bytes × Bytes
cut_lines zero buf = ([], buf)
cut_lines (suc fuel) buf = elim (partition 10 buf).1 [
  | false ↦ ([], buf)
  | true ↦
      let (lines, rest) = cut_lines fuel (partition 10 buf).2 in
      (rstrip_cr (partition 10 buf).0 ∷ lines, rest)
]

-- `read_lines(gen)`, from the buffer and the chunks that are still to come.
unfoldable pub read_lines : Bytes → List Bytes → List Bytes
read_lines buf [] = []
read_lines buf (chunk ∷ chunks) =
    let (lines, rest) = cut_lines (length (buf ++ chunk)) (buf ++ chunk) in
    lines ++ read_lines rest chunks
