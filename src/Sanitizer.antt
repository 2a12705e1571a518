-- ===== src/Sanitizer.antt =====
-- src/security/sanitizer.cpp. The static list `allowedExtensions_` is an argument of what reads it.
pub mod Slug
pub mod Filename
pub mod Extensions
use mathlib.Core.List.{reverse}
use project_tracker.Base.{
  ℕ, Bool, true, false, not, ◌&&◌, ◌||◌, List, [], ◌∷◌, ◌++◌, ltb, leb, ◌==◌, if◌then◌else◌, length,
  is_empty, last_of, take, all, any, keep, Bytes, codes, bytes_eq,
}
use project_tracker.Text.{
  is_lower, is_digit, is_alnum, is_cntrl, trim, split, to_lower, ends_with, contains, contains_byte,
}

abbrev pub default_extensions : List Bytes
default_extensions = codes ".md" ∷ codes ".json" ∷ codes ".txt" ∷ codes ".yaml" ∷ codes ".yml" ∷ []

-- `if (ext[0] != '.') ext = "." + ext;`
abbrev pub with_dot : Bytes → Bytes
with_dot [] = []
with_dot (c ∷ ext) = if c == b'.' then c ∷ ext else b'.' ∷ c ∷ ext

-- the loop over the parts of the list
unfoldable pub load_parts : List Bytes → List Bytes
load_parts [] = []
load_parts (part ∷ parts) =
    let ext = trim part in
    elim (is_empty ext) [
      | true ↦ load_parts parts
      | false ↦ to_lower (with_dot ext) ∷ load_parts parts
    ]

-- The value that `allowedExtensions_` has after the call.
unfoldable pub load_allowed_extensions : Bytes → List Bytes
unfolding load_parts
load_allowed_extensions extension_list =
    let loaded = load_parts (split extension_list b',') in
    if is_empty loaded then default_extensions else loaded

abbrev pub is_slug_char : ℕ → Bool
is_slug_char c = is_lower c || is_digit c || (c == b'_') || (c == b'-')

abbrev pub is_trimmed : ℕ → Bool
is_trimmed c = (c == b'-') || (c == b'_')

unfoldable pub is_valid_slug : Bytes → Bool
is_valid_slug [] = false
is_valid_slug (c ∷ s) =
    if ltb 64 (length (c ∷ s))
    then false
    else if not (all is_slug_char (c ∷ s))
    then false
    else if is_trimmed c || is_trimmed (last_of c s)
    then false
    else true

-- `while (!result.empty() && (result.front() == '-' || result.front() == '_'))`
unfoldable pub trim_front : Bytes → Bytes
trim_front [] = []
trim_front (c ∷ s) = if is_trimmed c then trim_front s else c ∷ s

-- The same loop at the back, on the text read backwards.
unfoldable pub trim_back : Bytes → Bytes
unfolding trim_front
trim_back s = reverse (trim_front (reverse s))

unfoldable pub sanitize_slug : Bytes → Bytes
unfolding trim_back
sanitize_slug input =
    let result = trim_back (trim_front (keep is_slug_char (to_lower input))) in
    if ltb 64 (length result) then take 64 result else result

unfoldable pub contains_null_bytes : Bytes → Bool
contains_null_bytes s = contains_byte s 0

abbrev pub is_refused_control : ℕ → Bool
is_refused_control c = is_cntrl c && not (c == b'\t') && not (c == b'\n') && not (c == b'\r')

unfoldable pub contains_control_chars : Bytes → Bool
contains_control_chars s = any is_refused_control s

unfoldable pub has_allowed_extension : List Bytes → Bytes → Bool
has_allowed_extension allowed filename =
    let lower = to_lower filename in any (λ ext. ends_with lower ext) allowed

abbrev pub is_filename_char : ℕ → Bool
is_filename_char c = is_alnum c || (c == b'.') || (c == b'_') || (c == b'-')

unfoldable pub is_valid_filename : List Bytes → Bytes → Bool
is_valid_filename allowed [] = false
is_valid_filename allowed (c ∷ s) =
    let filename = c ∷ s in
    if ltb 128 (length filename)
    then false
    else if contains_null_bytes filename
    then false
    else if contains filename (codes "..")
        || contains_byte filename b'/'
        || contains_byte filename b'\\'
    then false
    else if not (all is_filename_char filename)
    then false
    else if not (contains_byte filename b'.')
    then false
    else if c == b'.'
    then false
    else has_allowed_extension allowed filename

unfoldable pub is_clean_string : Bytes → ℕ → Bool
is_clean_string s max_len =
    if ltb max_len (length s)
    then false
    else if contains_null_bytes s
    then false
    else if contains_control_chars s
    then false
    else true

unfoldable pub is_valid_status : Bytes → Bool
unfolding bytes_eq
is_valid_status s =
    bytes_eq s (codes "active")
    || bytes_eq s (codes "paused")
    || bytes_eq s (codes "completed")
    || bytes_eq s (codes "abandoned")
    || bytes_eq s (codes "archived")
    || bytes_eq s (codes "all")

unfoldable pub is_valid_priority : Bytes → Bool
unfolding bytes_eq
is_valid_priority s =
    bytes_eq s (codes "high") || bytes_eq s (codes "medium") || bytes_eq s (codes "low")

unfoldable pub safe_disposition_name : Bytes → Bytes
safe_disposition_name filename =
    let safe = keep is_filename_char filename in if is_empty safe then codes "download" else safe
