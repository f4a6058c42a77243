-- ===== src/Transport/Stats/Report.antt =====
-- `get_server_stats` reads back what a server prints.
use nim_vortex.Prelude.{
  ℕ, zero, suc, ◌+◌, ◌*◌, ◌/◌, ◌%◌, ◌^◌, ◌≤◌, ◌<◌, ◌≡◌, inl, inr, refl, ap, ◌∙◌, Bool, true, false,
  ◌&&◌, Option, none, some, [], ◌∷◌, ◌++◌, ltb, leb, arith, Bool-cases,
}
use mathlib.Core.Option
use nim_vortex.Prelude.Bytes.{Bytes}
use nim_vortex.Prelude.Text.{is_digit, show, show_onto}
use nim_vortex.Prelude.Ints.{
  pos, digits_from, digit_count, signed, is_ascii_space, skip_spaces, keep_inner, trim_right,
  int_of_bytes,
}
use nim_vortex.Transport.Stats.{
  starts_word, onto_first, split, sampled, with_fds, third_field, with_heap, second_field, with_rss,
  first_field, get_server_stats,
}

-- The digits of a number.
abbrev AllDigits : Bytes → Type 0
AllDigits [] = Unit
AllDigits (c ∷ s) = (b'0' ≤ c) × (c ≤ b'9') × AllDigits s

abbrev NonEmpty : Bytes → Type 0
NonEmpty [] = ⊥
NonEmpty (c ∷ s) = Unit

show_onto-AllDigits :
    (fuel n : ℕ) (out : Bytes)
    → n < fuel
    → AllDigits out
    → AllDigits (show_onto fuel n out) × NonEmpty (show_onto fuel n out)
unfolding show_onto
show_onto-AllDigits zero n out h d = absurd (omega arith)
show_onto-AllDigits (suc fuel) n out h d = elim (Bool-cases (ltb n 10)) [
  | inl e ↦ rw e ((omega arith, omega arith, d), tt)
  | inr e ↦ rw e (
      show_onto-AllDigits fuel (n / 10) ((b'0' + n % 10) ∷ out) (ground arith)
        (omega arith, omega arith, d))
]

digits_from-digit :
    (after_digit : Bool) (acc d : ℕ) (out : Bytes)
    → d < 10
    → digits_from after_digit acc ((b'0' + d) ∷ out) ≡ digits_from true (acc * 10 + d) out
unfolding digits_from is_digit
digits_from-digit after_digit acc d out h =
    let digit : (leb b'0' (b'0' + d) && leb (b'0' + d) b'9') ≡ true = ground arith in
    rw digit (ap (λ (n : ℕ). digits_from true n out) (omega arith))

-- Reading the digits gives the number, and goes on behind it.
digits_from-show_onto :
    (fuel n : ℕ) (after_digit : Bool) (out : Bytes)
    → n < fuel
    → digits_from after_digit 0 (show_onto fuel n out) ≡ digits_from true n out
unfolding show_onto
digits_from-show_onto zero n after_digit out h = absurd (omega arith)
digits_from-show_onto (suc fuel) n after_digit out h = elim (Bool-cases (ltb n 10)) [
  | inl e ↦ rw e (
      digits_from-digit after_digit 0 (n % 10) out (omega arith)
      ∙ ap (λ (m : ℕ). digits_from true m out) (ground arith))
  | inr e ↦ rw e (
      digits_from-show_onto fuel (n / 10) after_digit ((b'0' + n % 10) ∷ out) (ground arith)
      ∙ digits_from-digit true (n / 10) (n % 10) out (omega arith)
      ∙ ap (λ (m : ℕ). digits_from true m out) (omega arith))
]

digit_count-cons : (c : ℕ) (s : Bytes) → digit_count (c ∷ s) ≤ suc (digit_count s)
unfolding digit_count is_digit
digit_count-cons c s = ground arith

pow_step : (k : ℕ) → 10 ^ suc (suc k) ≡ 10 * 10 ^ suc k
pow_step k = omega arith

digit_count-show_onto :
    (fuel n k : ℕ) (out : Bytes)
    → n < fuel
    → n < 10 ^ suc k
    → digit_count (show_onto fuel n out) ≤ suc k + digit_count out
unfolding show_onto digit_count is_digit
digit_count-show_onto zero n k out h b = absurd (omega arith)
digit_count-show_onto (suc fuel) n zero out h b =
    let small : ltb n 10 ≡ true = ground arith in rw small (ground arith)
digit_count-show_onto (suc fuel) n (suc k) out h b = elim (Bool-cases (ltb n 10)) [
  | inl e ↦ rw e (ground arith)
  | inr e ↦ rw e (
      omega (
        arith,
        digit_count-show_onto fuel (n / 10) k ((b'0' + n % 10) ∷ out) (ground arith)
            (omega (arith, pow_step k)),
        digit_count-cons (b'0' + n % 10) out,
      ))
]

-- Digits are no spaces, so the trimming of `int` leaves them.
is_ascii_space-digit : (c : ℕ) → b'0' ≤ c → is_ascii_space c ≡ false
unfolding is_ascii_space
is_ascii_space-digit c h = ground arith

trim_right-digits : (w : Bytes) → AllDigits w → trim_right w ≡ w
unfolding trim_right keep_inner
trim_right-digits [] d = refl
trim_right-digits (c ∷ []) (lo, hi, d) = rw (is_ascii_space-digit c lo) refl
trim_right-digits (c ∷ b ∷ w) (lo, hi, d) = rw (trim_right-digits (b ∷ w) d) refl

int_of_bytes-digits :
    (w : Bytes)
    → AllDigits w
    → NonEmpty w
    → digit_count w ≤ 4300
    → int_of_bytes w ≡ Option.map pos (digits_from false 0 w)
unfolding int_of_bytes signed skip_spaces
int_of_bytes-digits [] d n few = absurd n
int_of_bytes-digits (c ∷ w) (lo, hi, d) n few =
    rw (trim_right-digits (c ∷ w) (lo, hi, d), is_ascii_space-digit c lo) (ground arith)

-- `int` reads what `str` prints.
pub int_of_bytes-show : (n : ℕ) → n < 2 ^ 64 → int_of_bytes (show n) ≡ some (pos n)
unfolding show digits_from digit_count
int_of_bytes-show n h =
    let (digits, some_digit) = show_onto-AllDigits (suc n) n [] (omega arith) tt in
    int_of_bytes-digits (show_onto (suc n) n []) digits some_digit
      (omega (arith, digit_count-show_onto (suc n) n 19 [] (omega arith) (omega arith)))
    ∙ rw (digits_from-show_onto (suc n) n false [] (omega arith)) refl

split_end :
    (c : ℕ) (rest : Bytes)
    → is_ascii_space c ≡ false
    → split (c ∷ 32 ∷ rest) ≡ (c ∷ []) ∷ split rest
unfolding split starts_word
split_end c rest e = rw e (unfold is_ascii_space in refl)

split_one : (c : ℕ) → is_ascii_space c ≡ false → split (c ∷ []) ≡ (c ∷ []) ∷ []
unfolding split starts_word
split_one c e = rw e refl

split_step :
    (c : ℕ) (s : Bytes)
    → is_ascii_space c ≡ false
    → starts_word s ≡ true
    → split (c ∷ s) ≡ onto_first c (split s)
unfolding split
split_step c s e h = rw (e, h) refl

split-cons :
    (c b : ℕ) (s : Bytes) → b'0' ≤ c → b'0' ≤ b → split (c ∷ b ∷ s) ≡ onto_first c (split (b ∷ s))
split-cons c b s lo lo' =
    split_step c (b ∷ s) (is_ascii_space-digit c lo)
      (unfold starts_word in rw (is_ascii_space-digit b lo') refl)

split-word : (w rest : Bytes) → AllDigits w → NonEmpty w → split (w ++ 32 ∷ rest) ≡ w ∷ split rest
split-word [] rest d n = absurd n
split-word (c ∷ []) rest (lo, hi, d) n = split_end c rest (is_ascii_space-digit c lo)
split-word (c ∷ b ∷ w) rest (lo, hi, (lo', hi', d)) n =
    split-cons c b (w ++ 32 ∷ rest) lo lo'
    ∙ ap (onto_first c) (split-word (b ∷ w) rest (lo', hi', d) tt)
    ∙ unfold onto_first in refl

split-last : (w : Bytes) → AllDigits w → NonEmpty w → split w ≡ w ∷ []
split-last [] d n = absurd n
split-last (c ∷ []) (lo, hi, d) n = split_one c (is_ascii_space-digit c lo)
split-last (c ∷ b ∷ w) (lo, hi, (lo', hi', d)) n =
    split-cons c b w lo lo'
    ∙ ap (onto_first c) (split-last (b ∷ w) (lo', hi', d) tt)
    ∙ unfold onto_first in refl

-- The digits of a number are a word.
show-word : (n : ℕ) → AllDigits (show n) × NonEmpty (show n)
unfolding show
show-word n = show_onto-AllDigits (suc n) n [] (omega arith) tt

-- What a server prints: two counts, or three, with a space between them.
unfoldable pub report : ℕ → ℕ → Option ℕ → Bytes
report rss heap none = show rss ++ (32 ∷ show heap)
report rss heap (some fds) = show rss ++ (32 ∷ (show heap ++ (32 ∷ show fds)))

abbrev pub AreCounts : ℕ → ℕ → Option ℕ → Type 0
AreCounts rss heap none = (rss < 2 ^ 64) × (heap < 2 ^ 64)
AreCounts rss heap (some fds) = (rss < 2 ^ 64) × (heap < 2 ^ 64) × (fds < 2 ^ 64)

split-report-none : (rss heap : ℕ) → split (report rss heap none) ≡ show rss ∷ show heap ∷ []
unfolding report
split-report-none rss heap =
    let (r, r') = show-word rss in
    let (h, h') = show-word heap in
    split-word (show rss) (show heap) r r' ∙ ap (λ t. show rss ∷ t) (split-last (show heap) h h')

split-report-some :
    (rss heap fds : ℕ) → split (report rss heap (some fds)) ≡ show rss ∷ show heap ∷ show fds ∷ []
unfolding report
split-report-some rss heap fds =
    let (r, r') = show-word rss in
    let (h, h') = show-word heap in
    let (f, f') = show-word fds in
    split-word (show rss) (show heap ++ (32 ∷ show fds)) r r'
    ∙ ap (λ t. show rss ∷ t)
        (split-word (show heap) (show fds) h h'
          ∙ ap (λ t. show heap ∷ t) (split-last (show fds) f f'))

-- `get_server_stats` reads back the counts that a server prints, all below 2 ^ 64, with two fields and with
-- three; an older server's answer has no count of descriptors.
pub get_server_stats-report :
    (rss heap : ℕ) (fds : Option ℕ)
    → AreCounts rss heap fds
    → get_server_stats 200 (report rss heap fds) ≡ sampled (pos rss) (pos heap) (Option.map pos fds)
unfolding get_server_stats first_field with_rss second_field with_heap third_field with_fds
get_server_stats-report rss heap none (r, h) =
    rw (split-report-none rss heap, int_of_bytes-show rss r, int_of_bytes-show heap h) refl
get_server_stats-report rss heap (some fds) (r, h, f) =
    rw
      (
        split-report-some rss heap fds,
        int_of_bytes-show rss r,
        int_of_bytes-show heap h,
        int_of_bytes-show fds f,
      )
      refl
