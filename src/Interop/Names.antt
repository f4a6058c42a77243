-- ===== src/Interop/Names.antt =====
-- What the client looks for in an answer, said without its tests: a method named in the body or in a
-- header, and a text that is not blank.
use nim_vortex.Prelude.{
  ℕ, ◌≡◌, ◌≢◌, ◌⊎◌, inl, inr, ◌↔◌, refl, ap, ◌∙◌, Bool, true, false, ◌&&◌, Option, none, some, [],
  ◌∷◌, ◌++◌, append_assoc, ◌==◌, arith, ==_iff, Bool-cases,
}
use nim_vortex.Prelude.Bytes.{Bytes, codes, equal}
use nim_vortex.Prelude.Dict.{equal_iff}
use nim_vortex.Prelude.Text.{starts_with, strip, lstrip, rstrip, keep_or_drop, is_space}
use nim_vortex.Stress.{has_part}
use nim_vortex.Interop.{Reply, is_text, echoes_method, is_blank, names_subject}

pub and_split : (a b : Bool) → a && b ≡ true → (a ≡ true) × (b ≡ true)
and_split true b h = (refl, h)
and_split false b h = absurd (ground arith)

-- `part` stands somewhere in `text`.
abbrev pub Occurs : Bytes → Bytes → Type 0
Occurs part text = (before : Bytes) × (after : Bytes) × (text ≡ before ++ (part ++ after))

starts_with-split : (s p : Bytes) → starts_with s p ≡ true → (after : Bytes) × (s ≡ p ++ after)
unfolding starts_with
starts_with-split s [] h = (s, refl)
starts_with-split [] (p ∷ ps) h = absurd (ground arith)
starts_with-split (c ∷ s) (p ∷ ps) h =
    let (e, t) = and_split (c == p) (starts_with s ps) h in
    let (after, k) = starts_with-split s ps t in
    (after, ap (λ (x : ℕ). x ∷ s) ((==_iff c p).0 e) ∙ ap (λ (t : Bytes). p ∷ t) k)

starts_with-append : (p after : Bytes) → starts_with (p ++ after) p ≡ true
unfolding starts_with
starts_with-append [] after = unfold starts_with in refl
starts_with-append (c ∷ p) after = ground (arith, starts_with-append p after)

has_part-Occurs : (part text : Bytes) → has_part part text ≡ true → Occurs part text
unfolding has_part
has_part-Occurs part [] h = let (after, k) = starts_with-split [] part h in ([], after, k)
has_part-Occurs part (c ∷ s) h = elim (Bool-cases (starts_with (c ∷ s) part)) [
  | inl e ↦ let (after, k) = starts_with-split (c ∷ s) part e in ([], after, k)
  | inr e ↦
      let later : has_part part s ≡ true = rw e at h in
      let (before, after, k) = has_part-Occurs part s later in
      (c ∷ before, after, ap (λ (t : Bytes). c ∷ t) k)
]

has_part-start : (part text : Bytes) → starts_with text part ≡ true → has_part part text ≡ true
unfolding has_part
has_part-start part [] h = h
has_part-start part (c ∷ s) h = rw h refl

has_part-later :
    (part : Bytes) (c : ℕ) (s : Bytes) → has_part part s ≡ true → has_part part (c ∷ s) ≡ true
unfolding has_part
has_part-later part c s h = ground (arith, h)

Occurs-has_part : (part before after : Bytes) → has_part part (before ++ (part ++ after)) ≡ true
Occurs-has_part part [] after = has_part-start part (part ++ after) (starts_with-append part after)
Occurs-has_part part (c ∷ before) after =
    has_part-later part c (before ++ (part ++ after)) (Occurs-has_part part before after)

has_part_iff : (part text : Bytes) → (has_part part text ≡ true) ↔ Occurs part text
has_part_iff part text =
    (has_part-Occurs part text, λ (before, after, e). rw e (Occurs-has_part part before after))

-- An answer names its method: HEAD in a header, the others in the body.
abbrev pub Names : Bytes → Reply → Type 0
Names m r =
    ((m ≡ codes "HEAD") × (r.echoed ≡ some (codes "HEAD")))
    ⊎ ((m ≢ codes "HEAD") × Occurs (codes "method=" ++ m) r.text)

pub is_text_iff : (text : Bytes) (o : Option Bytes) → (is_text text o ≡ true) ↔ (o ≡ some text)
unfolding is_text
is_text_iff text none = ((λ h. absurd (ground arith)), λ h. absurd (ground arith))
is_text_iff text (some value) =
    ((λ h. ap some ((equal_iff value text).0 h)), λ h. (equal_iff value text).1 (ground arith))

pub echoes_method_iff : (m : Bytes) (r : Reply) → (echoes_method m r ≡ true) ↔ Names m r
unfolding echoes_method
echoes_method_iff m r = elim (Bool-cases (equal m (codes "HEAD"))) [
  | inl e ↦
      let h = (equal_iff m (codes "HEAD")).0 e in
      let t = is_text_iff (codes "HEAD") r.echoed in
      rw e ((λ k. inl (h, t.0 k)), elim [ inl (x, k) ↦ t.1 k | inr (x, k) ↦ absurd (x h) ])
  | inr e ↦
      let t = has_part_iff (codes "method=" ++ m) r.text in
      rw e (
        (λ k. inr ((λ x. ground (arith, (equal_iff m (codes "HEAD")).1 x)), t.0 k)),
        elim [
          | inl (x, k) ↦ absurd (ground (arith, (equal_iff m (codes "HEAD")).1 x))
          | inr (x, k) ↦ t.1 k
        ],
      )
]

-- Nothing but characters that `strip` cuts.
abbrev pub IsAllSpace : Bytes → Type 0
IsAllSpace [] = Unit
IsAllSpace (c ∷ s) = (is_space c ≡ true) × IsAllSpace s

-- A text with nothing in it but space, or but a dash in space.
abbrev pub Blank : Bytes → Type 0
Blank text =
    IsAllSpace text
    ⊎ ((before : Bytes) × (after : Bytes) × (text ≡ before ++ (45 ∷ after))
        × IsAllSpace before
        × IsAllSpace after)

keep_or_drop-cut :
    (c : ℕ) (s kept after : Bytes)
    → s ≡ kept ++ after
    → IsAllSpace after
    → (a : Bytes) × (c ∷ s ≡ keep_or_drop c kept ++ a) × IsAllSpace a
unfolding keep_or_drop
keep_or_drop-cut c s [] after e h = elim (Bool-cases (is_space c)) [
  | inl b ↦ rw b (c ∷ after, ap (λ (t : Bytes). c ∷ t) e, (b, h))
  | inr b ↦ rw b (after, ap (λ (t : Bytes). c ∷ t) e, h)
]
keep_or_drop-cut c s (d ∷ kept) after e h = (after, ap (λ (t : Bytes). c ∷ t) e, h)

-- What `rstrip` and `lstrip` cut.
rstrip-cut : (s : Bytes) → (after : Bytes) × (s ≡ rstrip s ++ after) × IsAllSpace after
unfolding rstrip
rstrip-cut [] = ([], refl, tt)
rstrip-cut (c ∷ s) = let (after, e, h) = rstrip-cut s in keep_or_drop-cut c s (rstrip s) after e h

lstrip-cut : (s : Bytes) → (before : Bytes) × (s ≡ before ++ lstrip s) × IsAllSpace before
unfolding lstrip
lstrip-cut [] = ([], refl, tt)
lstrip-cut (c ∷ s) = elim (Bool-cases (is_space c)) [
  | inl b ↦
      let (before, e, h) = lstrip-cut s in rw b (c ∷ before, ap (λ (t : Bytes). c ∷ t) e, (b, h))
  | inr b ↦ rw b ([], refl, tt)
]

IsAllSpace-append : (a b : Bytes) → IsAllSpace a → IsAllSpace b → IsAllSpace (a ++ b)
IsAllSpace-append [] b h k = k
IsAllSpace-append (c ∷ a) b (x, h) k = (x, IsAllSpace-append a b h k)

rstrip-IsAllSpace : (s : Bytes) → IsAllSpace s → rstrip s ≡ []
unfolding rstrip keep_or_drop
rstrip-IsAllSpace [] h = refl
rstrip-IsAllSpace (c ∷ s) (x, h) = rw (rstrip-IsAllSpace s h, x) refl

keep_or_drop-append :
    (d : ℕ) (a : Bytes) (c : ℕ) → keep_or_drop d (a ++ (c ∷ [])) ≡ d ∷ (a ++ (c ∷ []))
unfolding keep_or_drop
keep_or_drop-append d [] c = refl
keep_or_drop-append d (e ∷ a) c = refl

rstrip-append :
    (a : Bytes) (c : ℕ) (after : Bytes)
    → is_space c ≡ false
    → IsAllSpace after
    → rstrip (a ++ (c ∷ after)) ≡ a ++ (c ∷ [])
unfolding rstrip
rstrip-append [] c after x h = unfold rstrip keep_or_drop in rw (rstrip-IsAllSpace after h, x) refl
rstrip-append (d ∷ a) c after x h =
    unfold rstrip in rw (rstrip-append a c after x h) (keep_or_drop-append d a c)

lstrip-append :
    (a : Bytes) (c : ℕ) (s : Bytes)
    → is_space c ≡ false
    → IsAllSpace a
    → lstrip (a ++ (c ∷ s)) ≡ c ∷ s
unfolding lstrip
lstrip-append [] c s x h = unfold lstrip in rw x refl
lstrip-append (d ∷ a) c s x (y, h) = unfold lstrip in rw (y, lstrip-append a c s x h) refl

strip-cut :
    (s : Bytes)
    → (before : Bytes) × (after : Bytes) × (s ≡ before ++ (strip s ++ after))
      × IsAllSpace before
      × IsAllSpace after
unfolding strip
strip-cut s =
    let (after, e, h) = rstrip-cut s in
    let (before, l, k) = lstrip-cut (rstrip s) in
    (
      before,
      after,
      e ∙ (ap (λ (t : Bytes). t ++ after) l ∙ append_assoc before (lstrip (rstrip s)) after),
      k,
      h,
    )

is_blank-Blank : (text : Bytes) → is_blank text ≡ true → Blank text
unfolding is_blank
is_blank-Blank text h =
    let (before, after, e, b, a) = strip-cut text in
    elim (Bool-cases (equal (strip text) [])) [
      | inl x ↦
          let all : text ≡ before ++ after =
            e ∙ ap (λ (t : Bytes). before ++ (t ++ after)) ((equal_iff (strip text) []).0 x) in
          inl (rw all (IsAllSpace-append before after b a))
      | inr x ↦
          let dash : equal (strip text) (codes "-") ≡ true = rw x at h in
          inr (
            before,
            after,
            e
                ∙ ap (λ (t : Bytes). before ++ (t ++ after))
                    ((equal_iff (strip text) (codes "-")).0 dash),
            b,
            a,
          )
    ]

Blank-is_blank : (text : Bytes) → Blank text → is_blank text ≡ true
unfolding is_blank strip
Blank-is_blank text (inl h) = rw (rstrip-IsAllSpace text h) (unfold lstrip equal in refl)
Blank-is_blank text (inr (before, after, e, b, a)) =
    let dash : is_space 45 ≡ false = unfold is_space in refl in
    rw (e, rstrip-append before 45 after dash a, lstrip-append before 45 [] dash b)
      (unfold equal in refl)

-- An answer of /whoami names a subject.
abbrev pub NamesSubject : Reply → Type 0
NamesSubject r = (r.status ≡ 200) × ¬ Blank r.text

pub names_subject_iff : (r : Reply) → (names_subject r ≡ true) ↔ NamesSubject r
unfolding names_subject
names_subject_iff r = (
  λ h.
      let (s, b) = and_split _ _ h in
      ((==_iff r.status 200).0 s, λ k. absurd (ground (arith, Blank-is_blank r.text k))),
  λ (s, b). elim (Bool-cases (is_blank r.text)) [
    | inl e ↦ absurd (b (is_blank-Blank r.text e))
    | inr e ↦ rw (e, s) (ground arith)
  ],
)
