-- ===== src/Sanitizer/Slug/Sanitize.antt =====
-- What `sanitizeSlug` of src/security/sanitizer.cpp gives.
use mathlib.Core.List.{reverse}
use project_tracker.Base.{
  ℕ, zero, suc, ◌≤◌, ◌≡◌, ◌⊎◌, inl, inr, refl, true, false, [], ◌∷◌, arith, ltb, All, All-take,
  keep, length, length-take-le, take, Bytes, Bool-cases,
}
use project_tracker.Text.{to_lower}
use project_tracker.Sanitizer.{is_slug_char, is_valid_slug, trim_front, sanitize_slug}
use project_tracker.Sanitizer.Slug.{SlugChar, PlainFront, IsSlug-of_valid, valid_of_IsSlug}
use project_tracker.Sanitizer.Slug.Trim.{
  slug_core, PlainFront-trim_front, slug_core-front, slug_core-back, slug_core-chars,
  slug_core_self,
}

-- `sanitizeSlug` changes no valid slug.
pub sanitize_slug_valid : (s : Bytes) → is_valid_slug s ≡ true → sanitize_slug s ≡ s
unfolding sanitize_slug
sanitize_slug_valid s h =
    let v = IsSlug-of_valid s h in
    let e = slug_core_self s v.chars v.front v.back in ground (arith, v.short, e)

PlainFront-take : (n : ℕ) (s : Bytes) → PlainFront s → PlainFront (take n s)
PlainFront-take zero s h = tt
PlainFront-take (suc n) [] h = tt
PlainFront-take (suc n) (c ∷ s) h = h

slug_core-PlainFront : (input : Bytes) → PlainFront (slug_core input)
slug_core-PlainFront input =
    slug_core-front _ (PlainFront-trim_front (keep is_slug_char (to_lower input)))

-- Whatever the input, the result has at most 64 bytes, all of them slug characters, and does not
-- begin with '-' or '_'.
pub sanitize_slug_bounds :
    (input : Bytes)
    → (length (sanitize_slug input) ≤ 64)
      × All SlugChar (sanitize_slug input)
      × PlainFront (sanitize_slug input)
unfolding sanitize_slug
sanitize_slug_bounds input = elim (Bool-cases (ltb 64 (length (slug_core input)))) [
  | inl e ↦ rw e (
    length-take-le 64 (slug_core input),
    All-take SlugChar 64 (slug_core input) (slug_core-chars input),
    PlainFront-take 64 (slug_core input) (slug_core-PlainFront input),
  )
  | inr e ↦ rw e (ground arith, slug_core-chars input, slug_core-PlainFront input)
]

slug_core-cases :
    (input : Bytes)
    → length (slug_core input) ≤ 64
    → (slug_core input ≡ []) ⊎ (is_valid_slug (slug_core input) ≡ true)
slug_core-cases input h =
    pick (slug_core input) h (slug_core-chars input) (slug_core-PlainFront input)
      (slug_core-back (trim_front (keep is_slug_char (to_lower input))))
  where
    pick :
        (s : Bytes)
        → length s ≤ 64
        → All SlugChar s
        → PlainFront s
        → PlainFront (reverse s)
        → (s ≡ []) ⊎ (is_valid_slug s ≡ true)
    pick [] h k f b = inl refl
    pick (c ∷ s) h k f b = inr (
        valid_of_IsSlug (c ∷ s)
          (record { some_char = omega arith; short = h; chars = k; front = f; back = b }))

-- If at most 64 bytes are left after the trimming, the result is empty or a valid slug.
pub sanitize_slug_short :
    (input : Bytes)
    → length (slug_core input) ≤ 64
    → (sanitize_slug input ≡ []) ⊎ (is_valid_slug (sanitize_slug input) ≡ true)
unfolding sanitize_slug
sanitize_slug_short input h =
    let uncut : ltb 64 (length (slug_core input)) ≡ false = ground arith in
    rw uncut (slug_core-cases input h)
