-- ===== src/Sanitizer/Extensions.antt =====
-- `loadAllowedExtensions` of src/security/sanitizer.cpp.
use project_tracker.Base.{
  ℕ, ◌≤◌, ◌≡◌, false, List, [], ◌∷◌, arith, All, length, is_empty, Bytes, Bool-cases, inl, inr,
  if◌then◌else◌, map,
}
use project_tracker.Text.{is_upper, lower, to_lower, trim, split}
use project_tracker.Sanitizer.{with_dot, load_parts, load_allowed_extensions, default_extensions}

-- A dot first, and no upper-case letter.
abbrev pub IsExtension : Bytes → Type 0
IsExtension [] = ⊥
IsExtension (c ∷ s) = (c ≡ 46) × All (λ d. is_upper d ≡ false) s

lower-not-upper : (c : ℕ) → is_upper (lower c) ≡ false
lower-not-upper c = ground arith

All-lower : (s : Bytes) → All (λ d. is_upper d ≡ false) (map lower s)
All-lower [] = tt
All-lower (c ∷ s) = (lower-not-upper c, All-lower s)

with_dot-IsExtension : (s : Bytes) → is_empty s ≡ false → IsExtension (to_lower (with_dot s))
unfolding to_lower
with_dot-IsExtension [] h = cc
with_dot-IsExtension (c ∷ s) h = ground (arith, All-lower s, lower-not-upper c)

load_parts-IsExtension : (parts : List Bytes) → All IsExtension (load_parts parts)
unfolding load_parts
load_parts-IsExtension [] = tt
load_parts-IsExtension (p ∷ ps) = elim (Bool-cases (is_empty (trim p))) [
  | inl e ↦ rw (e, load_parts) (load_parts-IsExtension ps)
  | inr e ↦ rw (e, load_parts) (with_dot-IsExtension (trim p) e, load_parts-IsExtension ps)
]

-- Whatever the configured list, at least one extension is loaded, and each of them begins with a
-- dot and holds no upper-case letter behind it, as the test against the lower-cased name needs.
pub load_allowed_extensions-IsExtension :
    (extension_list : Bytes)
    → (1 ≤ length (load_allowed_extensions extension_list))
      × All IsExtension (load_allowed_extensions extension_list)
unfolding load_allowed_extensions
load_allowed_extensions-IsExtension extension_list =
    pick (load_parts (split extension_list 44)) (load_parts-IsExtension (split extension_list 44))
  where
    pick :
        (loaded : List Bytes)
        → All IsExtension loaded
        → (1 ≤ length (if is_empty loaded then default_extensions else loaded))
          × All IsExtension (if is_empty loaded then default_extensions else loaded)
    pick [] h = (omega arith, ground arith)
    pick (e ∷ es) h = (omega arith, h)
