-- ===== src/Sse/Feed/Numbers.antt =====
-- The numbers of the events that a connection brings, read off its lines with no account of a sequence, and
-- what the connection makes of them.
use nim_vortex.Prelude.{
  ℕ, zero, suc, ◌+◌, ◌≡◌, ◌≢◌, inl, inr, refl, ap, ◌∙◌, true, false, not, ◌&&◌, Option, none, some,
  List, [], ◌∷◌, ◌++◌, drop, ltb, ◌==◌, if◌then◌else◌, arith, ==_iff, Bool-cases,
}
use nim_vortex.Prelude.Bytes.{Bytes, codes}
use nim_vortex.Prelude.Text.{starts_with, strip}
use nim_vortex.Prelude.Ints.{ℤ, pos, negsuc, int_of_bytes}
use nim_vortex.Sse.Feed.{
  total, batch, Feed, Failure, short_batch, no_progress, value_error, bad_status, out_of_order, Fed,
  feeds, fails, is_number, set_id, take_data, feed_line, then_feed, feed_lines, close, connection,
}

-- The ids of the `data:` lines that stand behind an `id:` line, where an id serves one of them.
unfoldable pub ids_of : Option ℤ → List Bytes → List ℤ
ids_of id [] = []
ids_of none (line ∷ lines) =
    if starts_with line (codes "id:")
    then ids_of (int_of_bytes (strip (drop 3 line))) lines
    else ids_of none lines
ids_of (some z) (line ∷ lines) =
    if starts_with line (codes "id:")
    then ids_of (int_of_bytes (strip (drop 3 line))) lines
    else if starts_with line (codes "data:")
    then z ∷ ids_of none lines
    else ids_of (some z) lines

unfoldable pub all_ids : List (ℕ × List Bytes) → List ℤ
all_ids [] = []
all_ids ((status, lines) ∷ cs) = ids_of none lines ++ all_ids cs

-- `count` numbers from `i` on.
unfoldable pub numbered : ℕ → ℕ → List ℤ
numbered i zero = []
numbered i (suc count) = pos i ∷ numbered (suc i) count

pub numbered-append :
    (i k j m n : ℕ) (zs : List ℤ)
    → m ≡ i + k
    → n ≡ k + j
    → numbered i k ++ (numbered m j ++ zs) ≡ numbered i n ++ zs
unfolding numbered
numbered-append i zero j m n zs e h =
    let start : m ≡ i = omega arith in
    let count : j ≡ n = omega arith in
    ap (λ (t : ℕ). numbered t j ++ zs) start ∙ ap (λ (t : ℕ). numbered i t ++ zs) count
numbered-append i (suc k) j m zero zs e h = absurd (omega arith)
numbered-append i (suc k) j m (suc n) zs e h =
    ap (λ (t : List ℤ). pos i ∷ t) (numbered-append (suc i) k j m n zs (omega arith) (omega arith))

-- What a failure says of the ids: the next one is not the number that is due.
abbrev pub Misses : ℕ → List ℤ → Failure → Type 0
Misses base ids (bad_status status) = Unit
Misses base ids (out_of_order z n) =
    (k : ℕ) × (more : List ℤ) × (n ≡ base + k) × (ids ≡ numbered base k ++ (z ∷ more)) × (z ≢ pos n)
Misses base ids no_progress = Unit
Misses base ids (short_batch count got) = Unit
Misses base ids value_error = Unit

-- The lines with these ids take the count from `base` up to where it ends.
abbrev pub Brings : ℕ → List ℤ → Fed → Type 0
Brings base ids (feeds f) = (k : ℕ) × (f.got ≡ base + k) × (ids ≡ numbered base k)
Brings base ids (fails r) = Misses base ids r

pub is_number_iff : (z : ℤ) (n : ℕ) → is_number z n ≡ true → z ≡ pos n
unfolding is_number
is_number_iff (pos m) n h = ap pos ((==_iff m n).0 h)
is_number_iff (negsuc m) n h = cc

is_number-pos : (z : ℤ) (n : ℕ) → is_number z n ≡ false → z ≢ pos n
unfolding is_number
is_number-pos (pos m) n h e = ground (arith, (==_iff m n).1 (cc))
is_number-pos (negsuc m) n h e = cc

counted-Brings :
    (base : ℕ) (ids : List ℤ) (x : Fed) → Brings (suc base) ids x → Brings base (pos base ∷ ids) x
unfolding numbered
counted-Brings base ids (feeds f) (k, g, e) =
    (suc k, omega arith, ap (λ (t : List ℤ). pos base ∷ t) e)
counted-Brings base ids (fails (out_of_order z n)) (k, more, g, e, m) =
    (suc k, more, omega arith, ap (λ (t : List ℤ). pos base ∷ t) e, m)
counted-Brings base ids (fails (bad_status status)) h = tt
counted-Brings base ids (fails no_progress) h = tt
counted-Brings base ids (fails (short_batch count got)) h = tt
counted-Brings base ids (fails value_error) h = tt

abbrev LinesBring : List Bytes → Type 0
LinesBring lines =
    (f : Feed) (z : Option ℤ) → f.cur_id ≡ z → Brings f.got (ids_of z lines) (feed_lines lines f)

id-Brings :
    (lines : List Bytes) (f : Feed) (new : Option ℤ)
    → LinesBring lines
    → Brings f.got (ids_of new lines) (then_feed (set_id new f) (feed_lines lines))
unfolding set_id
id-Brings lines f none ih = tt
id-Brings lines f (some n) ih = ih (record f { cur_id = some n }) (some n) refl

data-Brings :
    (lines : List Bytes) (f : Feed) (n : ℤ)
    → LinesBring lines
    → Brings f.got (n ∷ ids_of none lines) (then_feed (take_data (some n) f) (feed_lines lines))
unfolding take_data
data-Brings lines f n ih = elim (Bool-cases (is_number n f.got)) [
  | inl e ↦
      let next : Feed = record {
        got = suc f.got;
        last = some (pos f.got);
        progressed = true;
        cur_id = none;
        this_batch = f.this_batch + 1;
      } in
      rw (e, is_number_iff n f.got e)
        (counted-Brings f.got (ids_of none lines) (feed_lines lines next) (ih next none refl))
  | inr e ↦
      rw e (0, ids_of none lines, omega arith, unfold numbered in refl, is_number-pos n f.got e)
]

no_id-Brings :
    (lines : List Bytes) (f : Feed) (z : Option ℤ)
    → z ≡ none
    → Brings f.got (ids_of none lines) (feed_lines lines f)
    → Brings f.got (ids_of none lines) (then_feed (take_data z f) (feed_lines lines))
unfolding take_data
no_id-Brings lines f none e h = h
no_id-Brings lines f (some n) e h = absurd (cc)

some_id-Brings :
    (lines : List Bytes) (f : Feed) (z : Option ℤ) (n : ℤ)
    → z ≡ some n
    → LinesBring lines
    → Brings f.got (n ∷ ids_of none lines) (then_feed (take_data z f) (feed_lines lines))
some_id-Brings lines f z n e ih = rw e (data-Brings lines f n ih)

line-Brings :
    (line : Bytes) (lines : List Bytes) (f : Feed) (z : Option ℤ)
    → f.cur_id ≡ z
    → LinesBring lines
    → Brings f.got (ids_of z (line ∷ lines)) (feed_lines (line ∷ lines) f)
unfolding ids_of feed_lines feed_line
line-Brings line lines f none e ih = elim (Bool-cases (starts_with line (codes "id:"))) [
  | inl i ↦ rw i (id-Brings lines f (int_of_bytes (strip (drop 3 line))) ih)
  | inr i ↦ elim (Bool-cases (starts_with line (codes "data:"))) [
    | inl d ↦ rw (i, d) (no_id-Brings lines f f.cur_id e (ih f none e))
    | inr d ↦ rw (i, d) (ih f none e)
  ]
]
line-Brings line lines f (some n) e ih = elim (Bool-cases (starts_with line (codes "id:"))) [
  | inl i ↦ rw i (id-Brings lines f (int_of_bytes (strip (drop 3 line))) ih)
  | inr i ↦ elim (Bool-cases (starts_with line (codes "data:"))) [
    | inl d ↦ rw (i, d) (some_id-Brings lines f f.cur_id n e ih)
    | inr d ↦ rw (i, d) (ih f (some n) e)
  ]
]

feed_lines-Brings :
    (lines : List Bytes) (f : Feed) (z : Option ℤ)
    → f.cur_id ≡ z
    → Brings f.got (ids_of z lines) (feed_lines lines f)
feed_lines-Brings [] f z e =
    unfold ids_of in unfold feed_lines in (0, omega arith, unfold numbered in refl)
feed_lines-Brings (line ∷ lines) f z e = line-Brings line lines f z e (feed_lines-Brings lines)

-- Closing a connection keeps the count or fails for another reason.
close-Brings :
    (base : ℕ) (ids : List ℤ) (x : Fed) → Brings base ids x → Brings base ids (then_feed x close)
unfolding close
close-Brings base ids (fails r) h = h
close-Brings base ids (feeds f) h = elim (Bool-cases f.progressed) [
  | inl p ↦ elim (Bool-cases (ltb f.got total && not (f.this_batch == batch))) [
    | inl b ↦ rw (p, b) tt
    | inr b ↦ rw (p, b) h
  ]
  | inr p ↦ rw p tt
]

pub connection-Brings :
    (status : ℕ) (lines : List Bytes) (f : Feed)
    → Brings f.got (ids_of none lines) (connection status lines f)
unfolding connection
connection-Brings status lines f = elim (Bool-cases (status == 200)) [
  | inl e ↦
      let opened : Feed = record f { progressed = false; cur_id = none; this_batch = 0 } in
      rw e (
        close-Brings f.got (ids_of none lines) (feed_lines lines opened)
          (feed_lines-Brings lines opened none refl))
  | inr e ↦ rw e tt
]
