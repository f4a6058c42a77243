-- ===== src/Sse/Lines.antt =====
-- `read_lines` against the lines of the whole stream.
use nim_vortex.Prelude.{
  ℕ, zero, suc, ◌≤◌, ◌<◌, ◌≡◌, inl, inr, refl, sym, ◌∙◌, true, false, List, [], ◌∷◌, ◌++◌,
  append-nil, append_assoc, length, ◌==◌, if◌then◌else◌, arith, Bool-cases,
}
use nim_vortex.Prelude.Bytes.{Bytes}
use nim_vortex.Prelude.Text.{partition}
use nim_vortex.Sse.{rstrip_cr, cut_lines, read_lines}

-- The complete lines of a text, each without the newline and the carriage returns before it, and what
-- stands behind the last newline; `line` is the front of the first line.
unfoldable pub lines_of : Bytes → Bytes → List Bytes × Bytes
lines_of line [] = ([], line)
lines_of line (c ∷ s) =
    if c == 10
    then (rstrip_cr line ∷ (lines_of [] s).0, (lines_of [] s).1)
    else lines_of (line ++ c ∷ []) s

-- Python's `while` loop, by where the first newline stands.
lines_of-partition :
    (line s : Bytes)
    → lines_of line s ≡ (
        if (partition 10 s).1
        then (
          rstrip_cr (line ++ (partition 10 s).0) ∷ (lines_of [] (partition 10 s).2).0,
          (lines_of [] (partition 10 s).2).1,
        )
        else ([], line ++ s))
unfolding lines_of partition
lines_of-partition line [] = rw (append-nil line) refl
lines_of-partition line (c ∷ s) = elim (Bool-cases (c == 10)) [
  | inl e ↦ rw (e, append-nil line) refl
  | inr e ↦
      rw
        (
          e,
          lines_of-partition (line ++ c ∷ []) s,
          append_assoc line (c ∷ []) s,
          append_assoc line (c ∷ []) (partition 10 s).0,
        )
        refl
]

length-partition : (s : Bytes) → (partition 10 s).1 ≡ true → length (partition 10 s).2 < length s
unfolding partition
length-partition [] h = ground arith
length-partition (c ∷ s) h = ground (arith, length-partition s)

cut_lines-lines_of :
    (fuel : ℕ) (buf : Bytes) → length buf ≤ fuel → cut_lines fuel buf ≡ lines_of [] buf
unfolding cut_lines
cut_lines-lines_of zero [] h = unfold lines_of in refl
cut_lines-lines_of zero (c ∷ s) h = absurd (omega arith)
cut_lines-lines_of (suc fuel) buf h = elim (Bool-cases (partition 10 buf).1) [
  | inl e ↦
      let ih =
        cut_lines-lines_of fuel (partition 10 buf).2 (omega (arith, length-partition buf e)) in
      rw (e, cut_lines, lines_of-partition [] buf, e, ih) refl
  | inr e ↦ rw (e, cut_lines, lines_of-partition [] buf, e) refl
]

-- A second part of the text goes on with the line that the first has left open.
lines_of-append :
    (line s t : Bytes)
    → lines_of line (s ++ t) ≡ (
      (lines_of line s).0 ++ (lines_of (lines_of line s).1 t).0,
      (lines_of (lines_of line s).1 t).1,
    )
unfolding lines_of
lines_of-append line [] t = refl
lines_of-append line (c ∷ s) t = elim (Bool-cases (c == 10)) [
  | inl e ↦ rw (e, lines_of-append [] s t) refl
  | inr e ↦ rw e (lines_of-append (line ++ c ∷ []) s t)
]

-- A text without a newline.
abbrev pub IsOpen : Bytes → Type 0
IsOpen line = lines_of [] line ≡ ([], line)

lines_of-open : (line t : Bytes) → IsOpen line → lines_of [] (line ++ t) ≡ lines_of line t
lines_of-open line t h = lines_of-append [] line t ∙ rw h refl

IsOpen-append : (line : Bytes) (c : ℕ) → IsOpen line → (c == 10) ≡ false → IsOpen (line ++ c ∷ [])
unfolding lines_of
IsOpen-append line c h n = lines_of-open line (c ∷ []) h ∙ rw n refl

lines_of-IsOpen : (line s : Bytes) → IsOpen line → IsOpen (lines_of line s).1
unfolding lines_of
lines_of-IsOpen line [] h = h
lines_of-IsOpen line (c ∷ s) h = elim (Bool-cases (c == 10)) [
  | inl e ↦ rw e (lines_of-IsOpen [] s refl)
  | inr e ↦ rw e (lines_of-IsOpen (line ++ c ∷ []) s (IsOpen-append line c h e))
]

pub joined : List Bytes → Bytes
joined [] = []
joined (d ∷ ds) = d ++ joined ds

-- However the bytes of a stream are cut into chunks, `read_lines` yields the lines of the joined chunks: the
-- complete ones, in order, and not the last one, which has no newline yet.
pub read_lines-lines_of :
    (buf : Bytes) (chunks : List Bytes)
    → IsOpen buf
    → read_lines buf chunks ≡ (lines_of [] (buf ++ joined chunks)).0
unfolding read_lines joined
read_lines-lines_of buf [] h = rw (append-nil buf, h) refl
read_lines-lines_of buf (d ∷ ds) h =
    let rest = (lines_of [] (buf ++ d)).1 in
    let still = lines_of-IsOpen [] (buf ++ d) (unfold lines_of in refl) in
    rw
      (
        cut_lines-lines_of (length (buf ++ d)) (buf ++ d) (omega arith),
        read_lines-lines_of rest ds still,
        lines_of-open rest (joined ds) still,
        sym (append_assoc buf d (joined ds)),
        lines_of-append [] (buf ++ d) (joined ds),
      )
      refl
