-- ===== src/Sanitizer/Slug/Trim.antt =====
-- The trimming of a slug at both ends.
use mathlib.Core.List.{reverse, reverse-cons, reverse-reverse, reverse-append}
use project_tracker.Base.{
  ℕ, ◌≡◌, inl, inr, refl, sym, ap, ◌∙◌, [], ◌∷◌, ◌++◌, arith, All, All-append, All-keep, keep,
  Bytes, Bool-cases,
}
use project_tracker.Text.{to_lower}
use project_tracker.Sanitizer.{is_slug_char, is_trimmed, trim_front, trim_back}
use project_tracker.Sanitizer.Slug.{
  SlugChar, PlainFront, is_slug_char→SlugChar, is_slug_char-SlugChar,
}

-- The text before the cut to 64 bytes.
abbrev pub slug_core : Bytes → Bytes
slug_core input = trim_back (trim_front (keep is_slug_char (to_lower input)))

All-trim_front : (P : ℕ → Type 0) (s : Bytes) → All P s → All P (trim_front s)
unfolding trim_front
All-trim_front P [] h = tt
All-trim_front P (c ∷ s) (p, h) = ground (arith, All-trim_front P s h)

All-reverse : (P : ℕ → Type 0) (s : Bytes) → All P s → All P (reverse s)
All-reverse P [] h = tt
All-reverse P (c ∷ s) (p, h) =
    rw (reverse-cons c s) (All-append P (reverse s) (c ∷ []) (All-reverse P s h) (p, tt))

pub PlainFront-trim_front : (s : Bytes) → PlainFront (trim_front s)
unfolding trim_front
PlainFront-trim_front [] = tt
PlainFront-trim_front (c ∷ s) = elim (Bool-cases (is_trimmed c)) [
  | inl e ↦ rw e (PlainFront-trim_front s)
  | inr e ↦ rw e e
]

-- Cutting off the front leaves an end of the text.
trim_front-suffix : (s : Bytes) → (a : Bytes) × (s ≡ a ++ trim_front s)
unfolding trim_front
trim_front-suffix [] = ([], refl)
trim_front-suffix (c ∷ s) = elim (Bool-cases (is_trimmed c)) [
  | inl e ↦ let (a, h) = trim_front-suffix s in (c ∷ a, rw e (ap (◌∷◌ c) h))
  | inr e ↦ ([], rw e refl)
]

PlainFront-prefix : (a b : Bytes) → PlainFront (a ++ b) → PlainFront a
PlainFront-prefix [] b h = tt
PlainFront-prefix (c ∷ a) b h = h

-- Cutting off the back leaves a beginning of the text.
trim_back-prefix : (s : Bytes) → (b : Bytes) × (s ≡ trim_back s ++ b)
unfolding trim_back
trim_back-prefix s =
    let (a, h) = trim_front-suffix (reverse s) in
    (reverse a, sym (reverse-reverse s) ∙ ap reverse h ∙ reverse-append a (trim_front (reverse s)))

pub slug_core-front : (s : Bytes) → PlainFront s → PlainFront (trim_back s)
slug_core-front s h =
    let (b, e) = trim_back-prefix s in PlainFront-prefix (trim_back s) b (rw e at h)

pub slug_core-back : (s : Bytes) → PlainFront (reverse (trim_back s))
unfolding trim_back
slug_core-back s = rw (reverse-reverse) (PlainFront-trim_front (reverse s))

All-trim_back : (P : ℕ → Type 0) (s : Bytes) → All P s → All P (trim_back s)
unfolding trim_back
All-trim_back P s h =
    All-reverse P (trim_front (reverse s)) (All-trim_front P (reverse s) (All-reverse P s h))

pub slug_core-chars : (input : Bytes) → All SlugChar (slug_core input)
slug_core-chars input = All-trim_back SlugChar _ (
    All-trim_front SlugChar _
      (All-keep SlugChar is_slug_char is_slug_char→SlugChar (to_lower input)))

-- Texts that the pipeline leaves alone.
to_lower_self : (s : Bytes) → All SlugChar s → to_lower s ≡ s
unfolding to_lower
to_lower_self [] h = refl
to_lower_self (c ∷ s) (p, h) = ground (arith, to_lower_self s h)

keep_self : (s : Bytes) → All SlugChar s → keep is_slug_char s ≡ s
keep_self [] h = refl
keep_self (c ∷ s) (p, h) = rw (is_slug_char-SlugChar c p, keep) (ap (◌∷◌ c) (keep_self s h))

trim_front_self : (s : Bytes) → PlainFront s → trim_front s ≡ s
unfolding trim_front
trim_front_self [] h = refl
trim_front_self (c ∷ s) h = rw h

trim_back_self : (s : Bytes) → PlainFront (reverse s) → trim_back s ≡ s
unfolding trim_back
trim_back_self s h = ap reverse (trim_front_self (reverse s) h) ∙ reverse-reverse s

pub slug_core_self :
    (s : Bytes) → All SlugChar s → PlainFront s → PlainFront (reverse s) → slug_core s ≡ s
slug_core_self s h f b =
    ap (λ t. trim_back (trim_front (keep is_slug_char t))) (to_lower_self s h)
    ∙ ap (λ t. trim_back (trim_front t)) (keep_self s h)
    ∙ ap trim_back (trim_front_self s f)
    ∙ trim_back_self s b
