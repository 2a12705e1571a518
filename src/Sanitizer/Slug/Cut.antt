-- ===== src/Sanitizer/Slug/Cut.antt =====
-- The cut to 64 bytes in `sanitizeSlug` of src/security/sanitizer.cpp.
use mathlib.Core.List.{reverse-append}
use project_tracker.Base.{
  ℕ, zero, suc, ◌≤◌, ◌≡◌, inl, inr, refl, ap, true, false, [], ◌∷◌, ◌++◌, arith, ltb, All-append,
  length, length-append, take, Bytes, Bool-cases,
}
use project_tracker.Sanitizer.{is_slug_char, is_trimmed, is_valid_slug, sanitize_slug}
use project_tracker.Sanitizer.Slug.{
  SlugChar, PlainFront, IsSlug, is_slug_char→SlugChar, IsSlug-of_valid,
}
use project_tracker.Sanitizer.Slug.Trim.{slug_core, slug_core_self}

take-append_short :
    (n : ℕ) (p t : Bytes) (c : ℕ) → suc (length p) ≡ n → take n (p ++ c ∷ t) ≡ p ++ c ∷ []
take-append_short zero p t c e = absurd (omega arith)
take-append_short (suc n) [] t c e = rw (take_zero n t (omega arith))
  where
    take_zero : (n : ℕ) (t : Bytes) → n ≡ 0 → take n t ≡ []
    take_zero zero t h = refl
    take_zero (suc n) t h = absurd (omega arith)
take-append_short (suc n) (x ∷ p) t c e = ap (◌∷◌ x) (take-append_short n p t c (omega arith))

PlainFront-append : (p t : Bytes) → 1 ≤ length p → PlainFront p → PlainFront (p ++ t)
PlainFront-append [] t h f = absurd (omega arith)
PlainFront-append (c ∷ p) t h f = f

slug_core-cut :
    (p : Bytes) (c : ℕ)
    → IsSlug p
    → is_slug_char c ≡ true
    → is_trimmed c ≡ false
    → slug_core (p ++ 45 ∷ c ∷ []) ≡ p ++ 45 ∷ c ∷ []
slug_core-cut p c v h k =
    slug_core_self (p ++ 45 ∷ c ∷ [])
      (All-append SlugChar p (45 ∷ c ∷ []) v.chars (omega arith, (is_slug_char→SlugChar c h, tt)))
      (PlainFront-append p (45 ∷ c ∷ []) v.some_char v.front)
      (rw (reverse-append p (45 ∷ c ∷ [])) k)

valid_slug-dash : (p : Bytes) → is_valid_slug (p ++ 45 ∷ []) ≡ false
valid_slug-dash p = elim (Bool-cases (is_valid_slug (p ++ 45 ∷ []))) [
  | inl e ↦
      let back = (IsSlug-of_valid (p ++ 45 ∷ []) e).back in
      absurd_of (rw (reverse-append p (45 ∷ [])) at back)
  | inr e ↦ e
]
  where
    absurd_of : true ≡ false → is_valid_slug (p ++ 45 ∷ []) ≡ false
    absurd_of e = cc

-- The cut to 64 bytes comes after the trimming: behind a valid slug of 63 bytes, a '-' and one
-- more letter or digit give a text whose sanitised form is no valid slug.
pub sanitize_slug_cut :
    (p : Bytes) (c : ℕ)
    → length p ≡ 63
    → is_valid_slug p ≡ true
    → is_slug_char c ≡ true
    → is_trimmed c ≡ false
    → is_valid_slug (sanitize_slug (p ++ 45 ∷ c ∷ [])) ≡ false
unfolding sanitize_slug
sanitize_slug_cut p c n valid h k =
    rw (slug_core-cut p c (IsSlug-of_valid p valid) h k)
      (rw (long, take-append_short 64 p (c ∷ []) 45 (omega arith)) (valid_slug-dash p))
  where
    long : ltb 64 (length (p ++ 45 ∷ c ∷ [])) ≡ true
    long = ground (arith, length-append p (45 ∷ c ∷ []))
