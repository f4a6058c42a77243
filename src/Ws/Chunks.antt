-- ===== src/Ws/Chunks.antt =====
-- What `parse_ws` leaves in the buffer, and why the way the bytes were cut into chunks does not
-- matter.
use nim_vortex.Prelude.{
  ℕ, zero, suc, ◌+◌, ◌≤◌, ◌<◌, ◌≡◌, refl, sym, ap, ◌∙◌, List, [], ◌∷◌, ◌++◌, length, drop, arith,
  length-drop, drop-drop, drop-append_left,
}
use nim_vortex.Prelude.Bytes.{Bytes}
use nim_vortex.Ws.{
  Round, stop, fault, frame, parse_round, Parsed, parsed, assertion_error, spent, parse_ws,
}
use nim_vortex.Ws.Progress.{
  InBounds, parse_round-InBounds, Keeps, parse_round-append, place, place-place, place_nil,
  after_round, parse_ws_lem,
}

-- A result for the buffer `buf`: it lies in the buffer, and what it leaves holds no whole frame.
abbrev pub Leaves : Bytes → Parsed → Type 0
Leaves buf (parsed frames n) = (n ≤ length buf) × (parse_ws (drop n buf) ≡ parsed [] 0)
Leaves buf assertion_error = Unit
Leaves buf spent = ⊥

place-Leaves :
    (n : ℕ) (buf : Bytes) (fs : List (ℕ × Bytes)) (r : Parsed)
    → n ≤ length buf
    → Leaves (drop n buf) r
    → Leaves buf (place n fs r)
place-Leaves n buf fs (parsed gs m) h (inside, rest) =
    (omega (arith, length-drop n buf), rw (drop-drop m n buf (n + m) refl) at rest)
place-Leaves n buf fs assertion_error h l = tt
place-Leaves n buf fs spent h l = l

after_round-Leaves :
    (buf : Bytes) (r : Round)
    → parse_round buf 0 ≡ r
    → InBounds (length buf) 0 r
    → ((n : ℕ) → 2 ≤ n → n ≤ length buf → Leaves (drop n buf) (parse_ws (drop n buf)))
    → Leaves buf (after_round buf r)
after_round-Leaves buf stop e inside ih = (omega arith, parse_ws_lem buf ∙ rw e)
after_round-Leaves buf fault e inside ih = tt
after_round-Leaves buf (frame op payload n) e (two, below) ih =
    place-Leaves n buf ((op, payload) ∷ []) (parse_ws (drop n buf)) below (ih n two below)

parse_ws-Leaves_below : (bound : ℕ) (buf : Bytes) → length buf < bound → Leaves buf (parse_ws buf)
parse_ws-Leaves_below zero buf h = absurd (omega arith)
parse_ws-Leaves_below (suc bound) buf h = rw (parse_ws_lem buf) (
    after_round-Leaves buf (parse_round buf 0) refl (parse_round-InBounds buf 0)
      (λ n two below. parse_ws-Leaves_below bound (drop n buf) (omega (arith, length-drop n buf))))

pub parse_ws-Leaves : (buf : Bytes) → Leaves buf (parse_ws buf)
parse_ws-Leaves buf = parse_ws-Leaves_below (suc (length buf)) buf (omega arith)

-- A parse of `buf ++ more`, when the parse of `buf` came out as the second argument.
abbrev pub Resumes : Bytes → Bytes → Parsed → Type 0
Resumes buf more (parsed fs n) = parse_ws (buf ++ more) ≡ place n fs (parse_ws (drop n buf ++ more))
Resumes buf more assertion_error = parse_ws (buf ++ more) ≡ assertion_error
Resumes buf more spent = ⊥

place-Resumes :
    (buf more : Bytes) (n : ℕ) (fs : List (ℕ × Bytes)) (r : Parsed)
    → parse_ws (buf ++ more) ≡ place n fs (parse_ws (drop n buf ++ more))
    → Resumes (drop n buf) more r
    → Resumes buf more (place n fs r)
place-Resumes buf more n fs (parsed gs m) first rest =
    first
    ∙ ap (place n fs) rest
    ∙ place-place n m fs gs _
    ∙ ap (λ (t : Bytes). place (n + m) (fs ++ gs) (parse_ws (t ++ more)))
        (drop-drop m n buf (n + m) refl)
place-Resumes buf more n fs assertion_error first rest = first ∙ ap (place n fs) rest
place-Resumes buf more n fs spent first rest = rest

after_round-Resumes :
    (buf more : Bytes) (r : Round)
    → parse_round buf 0 ≡ r
    → InBounds (length buf) 0 r
    → Keeps r (parse_round (buf ++ more) 0)
    → ((n : ℕ) → 2 ≤ n → n ≤ length buf → Resumes (drop n buf) more (parse_ws (drop n buf)))
    → Resumes buf more (after_round buf r)
after_round-Resumes buf more stop e inside keeps ih = sym (place_nil (parse_ws (buf ++ more)))
after_round-Resumes buf more fault e inside keeps ih = parse_ws_lem (buf ++ more) ∙ rw keeps
after_round-Resumes buf more (frame op payload n) e (two, below) keeps ih =
    place-Resumes buf more n ((op, payload) ∷ []) (parse_ws (drop n buf)) first (ih n two below)
  where
    first : parse_ws (buf ++ more) ≡ place n ((op, payload) ∷ []) (parse_ws (drop n buf ++ more))
    first = parse_ws_lem (buf ++ more) ∙ rw (keeps, drop-append_left n buf more below)

parse_ws-Resumes_below :
    (bound : ℕ) (buf more : Bytes) → length buf < bound → Resumes buf more (parse_ws buf)
parse_ws-Resumes_below zero buf more h = absurd (omega arith)
parse_ws-Resumes_below (suc bound) buf more h = rw (parse_ws_lem buf) (
    after_round-Resumes buf more (parse_round buf 0) refl (parse_round-InBounds buf 0)
      (parse_round-append buf more)
      (λ n two below.
        parse_ws-Resumes_below bound (drop n buf) more (omega (arith, length-drop n buf))))

-- Bytes may arrive in any chunks. When `parse_ws` took the frames `fs` and `n` bytes off a buffer,
-- parsing the buffer with `more` behind it gives `fs` and then the frames of what was left with
-- `more` behind it; and an AssertionError is raised again whatever follows.
pub parse_ws-append : (buf more : Bytes) → Resumes buf more (parse_ws buf)
parse_ws-append buf more = parse_ws-Resumes_below (suc (length buf)) buf more (omega arith)
