-- ===== src/Sanitizer/Slug.antt =====
-- `isValidSlug` and `sanitizeSlug` of src/security/sanitizer.cpp.
pub mod Trim
pub mod Sanitize
pub mod Cut
use mathlib.Core.List.{reverse, reverse-cons, reverse-reverse, reverse-append}
use project_tracker.Base.{
  ℕ, zero, suc, ◌≤◌, ◌≡◌, ◌↔◌, ◌⊎◌, inl, inr, refl, sym, ap, ◌∙◌, true, false, [], ◌∷◌, ◌++◌, arith,
  ltb, All, All-of_all, All-append, All-keep, All-take, all, keep, length, length-take-le,
  length-append, last_of, take, Bytes, Bool-cases,
}
use project_tracker.Text.{to_lower}
use project_tracker.Sanitizer.{
  is_slug_char, is_trimmed, is_valid_slug, trim_front, trim_back, sanitize_slug,
}

-- One of a-z, 0-9, '_' and '-'.
abbrev pub SlugChar : ℕ → Type 0
SlugChar c = ((97 ≤ c) × (c ≤ 122)) ⊎ ((48 ≤ c) × (c ≤ 57)) ⊎ (c ≡ 95) ⊎ (c ≡ 45)

-- The text does not begin with '-' or '_'.
abbrev pub PlainFront : Bytes → Type 0
PlainFront [] = Unit
PlainFront (c ∷ s) = is_trimmed c ≡ false

-- 1 to 64 slug characters, with neither '-' nor '_' at an end.
pub record IsSlug (s : Bytes) : Type 0 where
  pub some_char : 1 ≤ length s
  pub short : length s ≤ 64
  pub chars : All SlugChar s
  pub front : PlainFront s
  pub back : PlainFront (reverse s)

pub is_slug_char→SlugChar : (c : ℕ) → is_slug_char c ≡ true → SlugChar c
is_slug_char→SlugChar c h = ground arith

pub is_slug_char-SlugChar : (c : ℕ) → SlugChar c → is_slug_char c ≡ true
is_slug_char-SlugChar c h = ground arith

all_of_SlugChar : (s : Bytes) → All SlugChar s → all is_slug_char s ≡ true
all_of_SlugChar [] h = refl
all_of_SlugChar (c ∷ s) (p, h) = rw (is_slug_char-SlugChar c p) (all_of_SlugChar s h)

reverse-last_of : (c : ℕ) (s : Bytes) → (r : Bytes) × (reverse (c ∷ s) ≡ last_of c s ∷ r)
reverse-last_of c [] = ([], refl)
reverse-last_of c (d ∷ s) =
    let (r, e) = reverse-last_of d s in
    (r ++ c ∷ [], reverse-cons c (d ∷ s) ∙ ap (λ t. t ++ c ∷ []) e)

PlainFront-last_of :
    (c : ℕ) (s : Bytes) → is_trimmed (last_of c s) ≡ false → PlainFront (reverse (c ∷ s))
PlainFront-last_of c s h = let (r, e) = reverse-last_of c s in rw e h

last_of-PlainFront :
    (c : ℕ) (s : Bytes) → PlainFront (reverse (c ∷ s)) → is_trimmed (last_of c s) ≡ false
last_of-PlainFront c s h = let (r, e) = reverse-last_of c s in rw e at h

pub IsSlug-of_valid : (s : Bytes) → is_valid_slug s ≡ true → IsSlug s
unfolding is_valid_slug
IsSlug-of_valid [] h = cc
IsSlug-of_valid (c ∷ s) h = record {
  some_char = omega arith;
  short = ground arith;
  chars = All-of_all SlugChar is_slug_char is_slug_char→SlugChar (c ∷ s) (ground arith);
  front = ground arith;
  back = PlainFront-last_of c s (ground arith);
}

pub valid_of_IsSlug : (s : Bytes) → IsSlug s → is_valid_slug s ≡ true
unfolding is_valid_slug
valid_of_IsSlug [] v = absurd (omega arith)
valid_of_IsSlug (c ∷ s) v =
    ground (arith, all_of_SlugChar (c ∷ s) v.chars, last_of-PlainFront c s v.back, v.front, v.short)

-- `isValidSlug` accepts exactly the texts of 1 to 64 bytes from a-z, 0-9, '_' and '-' that
-- neither begin nor end with '-' or '_'.
pub is_valid_slug_iff : (s : Bytes) → (is_valid_slug s ≡ true) ↔ IsSlug s
is_valid_slug_iff s = (IsSlug-of_valid s, valid_of_IsSlug s)
