-- ===== src/Transport/Payload.antt =====
-- `gen_chunk` against the plain description of the payload, and the chunks of a body joined.
use nim_vortex.Prelude.{
  ℕ, zero, suc, ◌+◌, ◌-◌, ◌*◌, ◌/◌, ◌%◌, ◌≤◌, ◌<◌, min, ◌≡◌, inl, inr, refl, sym, ap, ◌∙◌, true,
  false, Option, none, some, List, [], ◌∷◌, ◌++◌, length, take, drop, ltb, arith, ltb→lt,
  Bool-cases,
}
use nim_vortex.Prelude.Bytes.{Bytes}
use nim_vortex.Transport.{byte_range, pat, repeat, gen_chunk, body_from, body_gen}

-- The payload described byte for byte: `n` bytes from the offset `s` on.
unfoldable pub payload : ℕ → ℕ → Bytes
payload s zero = []
payload s (suc n) = s % 256 ∷ payload (suc s) n

length-payload : (s n : ℕ) → length (payload s n) ≡ n
unfolding payload
length-payload s zero = refl
length-payload s (suc n) = ap suc (length-payload (suc s) n)

payload-eq : (s t n m : ℕ) → s ≡ t → n ≡ m → payload s n ≡ payload t m
payload-eq s t n m e h = ap (λ (k : ℕ). payload k n) e ∙ ap (λ (k : ℕ). payload t k) h

payload-append : (s n m t k : ℕ) → t ≡ s + n → k ≡ n + m → payload s k ≡ payload s n ++ payload t m
unfolding payload
payload-append s zero m t k e h = payload-eq s t k m (omega arith) (omega arith)
payload-append s (suc n) m t zero e h = absurd (omega arith)
payload-append s (suc n) m t (suc k) e h =
    ap (λ x. s % 256 ∷ x) (payload-append (suc s) n m t k (omega arith) (omega arith))

payload-period : (s t n : ℕ) → s % 256 ≡ t % 256 → payload s n ≡ payload t n
unfolding payload
payload-period s t zero e = refl
payload-period s t (suc n) e =
    rw e (ap (λ x. t % 256 ∷ x) (payload-period (suc s) (suc t) n (omega arith)))

byte_range-payload : (i n : ℕ) → i + n ≤ 256 → byte_range i n ≡ payload i n
unfolding byte_range payload
byte_range-payload i zero h = refl
byte_range-payload i (suc n) h =
    rw (byte_range-payload (suc i) n (omega arith))
      (ap (λ (k : ℕ). k ∷ payload (suc i) n) (omega arith))

take-payload : (k s n : ℕ) → k ≤ n → take k (payload s n) ≡ payload s k
unfolding payload
take-payload zero s n h = refl
take-payload (suc k) s zero h = absurd (omega arith)
take-payload (suc k) s (suc n) h = ap (λ x. s % 256 ∷ x) (take-payload k (suc s) n (omega arith))

drop-payload : (k s n t m : ℕ) → t ≡ s + k → n ≡ k + m → drop k (payload s n) ≡ payload t m
unfolding payload
drop-payload zero s n t m e h = payload-eq s t n m (omega arith) (omega arith)
drop-payload (suc k) s zero t m e h = absurd (omega arith)
drop-payload (suc k) s (suc n) t m e h = drop-payload k (suc s) n t m (omega arith) (omega arith)

rot-payload :
    (s w : ℕ) (p : Bytes) → w ≡ 256 → p ≡ payload 0 w → s < w → drop s p ++ take s p ≡ payload s w
rot-payload s w p e h lt =
    rw
      (
        h,
        drop-payload s 0 w s (w - s) (omega arith) (omega arith),
        take-payload s 0 w (omega arith),
      )
      (ap (λ t. payload s (w - s) ++ t) (payload-period 0 w s (omega arith))
        ∙ sym (payload-append s (w - s) s w w (omega arith) (omega arith)))

repeat-payload : (s w reps k : ℕ) → w ≡ 256 → k ≡ w * reps → repeat reps (payload s w) ≡ payload s k
unfolding repeat payload
repeat-payload s w zero k e h = payload-eq s s 0 k refl (omega arith)
repeat-payload s w (suc reps) k e h =
    ap (λ t. payload s w ++ t)
      (repeat-payload s w reps (w * reps) e refl
        ∙ payload-period s (s + w) (w * reps) (omega arith))
    ∙ sym (payload-append s w (w * reps) (s + w) k refl (grind arith))

pat-payload : (w : ℕ) → w ≡ 256 → pat ≡ payload 0 w
pat-payload w e =
    unfold pat in byte_range-payload 0 256 (omega arith) ∙ payload-eq 0 0 256 w refl (omega arith)

enough : (n w reps : ℕ) → w ≡ 256 → reps ≡ n / 256 + 1 → n ≤ w * reps
enough n w reps e r = rw e (omega arith)

chunk-payload :
    (start n w reps : ℕ) (p : Bytes)
    → w ≡ 256
    → p ≡ payload 0 w
    → reps ≡ n / 256 + 1
    → take n (repeat reps (drop (start % 256) p ++ take (start % 256) p)) ≡ payload start n
chunk-payload start n w reps p e h r =
    rw
      (
        rot-payload (start % 256) w p e h (omega arith),
        repeat-payload (start % 256) w reps (w * reps) e refl,
        take-payload n (start % 256) (w * reps) (enough n w reps e r),
      )
      (payload-period (start % 256) start n (omega arith))

-- `gen_chunk` gives `n` bytes, and its byte `i` is `start + i` modulo 256, for every start and length.
pub gen_chunk-payload : (start n : ℕ) → gen_chunk start n ≡ payload start n
gen_chunk-payload start n =
    unfold gen_chunk in chunk-payload start n 256 (n / 256 + 1) pat refl (pat-payload 256 refl) refl

pub joined : List Bytes → Bytes
joined [] = []
joined (d ∷ ds) = d ++ joined ds

-- Chunks of at most `chunk` bytes that are not empty.
abbrev pub AreChunks : ℕ → List Bytes → Type 0
AreChunks chunk [] = Unit
AreChunks chunk (d ∷ ds) = (0 < length d) × (length d ≤ chunk) × AreChunks chunk ds

-- A body from the offset `off` on.
abbrev pub Covers : ℕ → ℕ → ℕ → Option (List Bytes) → Type 0
Covers stream chunk off none = ⊥
Covers stream chunk off (some ds) = (joined ds ≡ payload off (stream - off)) × AreChunks chunk ds

body_from-stop :
    (fuel stream chunk off : ℕ)
    → ltb off stream ≡ false
    → body_from (suc fuel) stream chunk off ≡ some []
unfolding body_from
body_from-stop fuel stream chunk off e = rw (e, body_from) refl

abbrev then_chunk : Bytes → Option (List Bytes) → Option (List Bytes)
then_chunk d none = none
then_chunk d (some ds) = some (d ∷ ds)

body_from-goes_on :
    (fuel stream chunk off : ℕ)
    → ltb off stream ≡ true
    → body_from (suc fuel) stream chunk off
      ≡ then_chunk
          (gen_chunk off (min chunk (stream - off)))
          (body_from fuel stream chunk (off + min chunk (stream - off)))
unfolding body_from
body_from-goes_on fuel stream chunk off e = rw (e, body_from) refl

Covers-then_chunk :
    (stream chunk off n : ℕ) (o : Option (List Bytes))
    → 0 < n
    → n ≤ chunk
    → off + n ≤ stream
    → Covers stream chunk (off + n) o
    → Covers stream chunk off (then_chunk (gen_chunk off n) o)
unfolding joined
Covers-then_chunk stream chunk off n none z l b h = h
Covers-then_chunk stream chunk off n (some ds) z l b (j, a) =
    rw (gen_chunk-payload off n, j)
      (
        sym (payload-append off n (stream - (off + n)) (off + n) (stream - off) refl (omega arith)),
        (rw (length-payload off n) z, rw (length-payload off n) l, a),
      )

joined_none : (off n : ℕ) → n ≡ 0 → joined [] ≡ payload off n
unfolding joined payload
joined_none off n e = payload-eq off off 0 n refl (sym e)

Covers-body_from :
    (fuel stream chunk off : ℕ)
    → 0 < chunk
    → stream < fuel + off
    → off ≤ stream
    → Covers stream chunk off (body_from fuel stream chunk off)
Covers-body_from zero stream chunk off pos enough below = absurd (omega arith)
Covers-body_from (suc fuel) stream chunk off pos enough below = elim (Bool-cases (ltb off stream)) [
  | inl e ↦
      let lt = ltb→lt off stream e in
      rw (body_from-goes_on fuel stream chunk off e) (
        Covers-then_chunk stream chunk off (min chunk (stream - off)) _ (omega arith) (omega arith)
          (omega arith)
          (Covers-body_from fuel stream chunk (off + min chunk (stream - off)) pos (omega arith)
            (omega arith)))
  | inr e ↦
      rw (body_from-stop fuel stream chunk off e)
        (joined_none off (stream - off) (ground arith), tt)
]

-- Whatever STREAM and a CHUNK above 0 are, the loop of `body_gen` ends, its chunks are not empty and none
-- is longer than CHUNK, and joined they are the STREAM bytes of the payload.
pub body_gen-Covers : (stream chunk : ℕ) → 0 < chunk → Covers stream chunk 0 (body_gen stream chunk)
unfolding body_gen
body_gen-Covers stream chunk pos =
    Covers-body_from (suc stream) stream chunk 0 pos (omega arith) (omega arith)
