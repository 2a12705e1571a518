-- ===== src/Sanitizer/Filename.antt =====
-- `isValidFilename`, `safeDispositionName` and `isCleanString` of src/security/sanitizer.cpp.
use mathlib.Core.List.{Memᴰ}
use project_tracker.Base.{
  ℕ, ◌≤◌, ◌-◌, ◌≡◌, ◌≢◌, ◌↔◌, ◌⊎◌, inl, inr, refl, true, false, List, [], ◌∷◌, ◌++◌, arith, All,
  All-of_all, All-keep, any, keep, length, is_empty, take, Bytes, codes, Bool-cases, or-eq-false,
  if◌then◌else◌,
}
use project_tracker.Text.{to_lower, ends_with}
use project_tracker.Text.Find.{ends_with→append, contains-false}
use project_tracker.Sanitizer.{
  is_filename_char, has_allowed_extension, is_valid_filename, safe_disposition_name,
  contains_null_bytes, contains_control_chars, is_refused_control, is_clean_string,
}

-- One of a-z, A-Z, 0-9, '.', '_' and '-'.
abbrev pub FilenameChar : ℕ → Type 0
FilenameChar c =
    ((97 ≤ c) × (c ≤ 122))
    ⊎ ((65 ≤ c) × (c ≤ 90))
    ⊎ ((48 ≤ c) × (c ≤ 57))
    ⊎ (c ≡ 46)
    ⊎ (c ≡ 95)
    ⊎ (c ≡ 45)

is_filename_char→FilenameChar : (c : ℕ) → is_filename_char c ≡ true → FilenameChar c
is_filename_char→FilenameChar c h = ground arith

-- The name ends in one of the extensions, whatever the case of its letters.
pub record HasExtension (allowed : List Bytes) (name : Bytes) : Type 0 where
  pub extension : Bytes
  pub stem : Bytes
  pub listed : Memᴰ extension allowed
  pub splits : to_lower name ≡ stem ++ extension

any-ends_with :
    (allowed : List Bytes) (t : Bytes)
    → any (λ ext. ends_with t ext) allowed ≡ true
    → (e : Bytes) × (stem : Bytes) × Memᴰ e allowed × (t ≡ stem ++ e)
any-ends_with [] t h = cc
any-ends_with (e ∷ es) t h = elim (Bool-cases (ends_with t e)) [
  | inl found ↦ (e, take (length t - length e) t, Memᴰ.head refl, ends_with→append t e found)
  | inr missed ↦
      let (x, stem, m, s) = any-ends_with es t (ground arith) in (x, stem, Memᴰ.tail m, s)
]

pub has_allowed_extension-HasExtension :
    (allowed : List Bytes) (name : Bytes)
    → has_allowed_extension allowed name ≡ true
    → HasExtension allowed name
unfolding has_allowed_extension
has_allowed_extension-HasExtension allowed name h =
    let (e, stem, m, s) = any-ends_with allowed (to_lower name) h in
    record { extension = e; stem = stem; listed = m; splits = s }

-- A name that cannot leave its directory: no separator, no "..", not hidden.
pub record IsSafeName (allowed : List Bytes) (name : Bytes) : Type 0 where
  pub some_char : 1 ≤ length name
  pub short : length name ≤ 128
  pub chars : All FilenameChar name
  pub no_parent : (a b : Bytes) → ¬ (name ≡ a ++ (46 ∷ 46 ∷ b))
  pub visible : (s : Bytes) → ¬ (name ≡ 46 ∷ s)
  pub extension : HasExtension allowed name

-- Every name that `isValidFilename` accepts has 1 to 128 bytes, all letters, digits, '.', '_' or
-- '-'; it holds no "..", does not begin with '.', and ends in one of the allowed extensions.
pub is_valid_filename-IsSafeName :
    (allowed : List Bytes) (name : Bytes)
    → is_valid_filename allowed name ≡ true
    → IsSafeName allowed name
unfolding is_valid_filename
is_valid_filename-IsSafeName allowed [] h = cc
is_valid_filename-IsSafeName allowed (c ∷ s) h = record {
  some_char = omega arith;
  short = ground arith;
  chars =
      All-of_all FilenameChar is_filename_char is_filename_char→FilenameChar (c ∷ s) (ground arith);
  no_parent = contains-false (c ∷ s) (codes "..") (ground arith);
  visible = λ t e. ground arith;
  extension = has_allowed_extension-HasExtension allowed (c ∷ s) (ground arith);
}

-- The name in a Content-Disposition header is never empty and holds no quote, no control byte and
-- no separator: only letters, digits, '.', '_' and '-'.
pub safe_disposition_name-chars :
    (name : Bytes)
    → (1 ≤ length (safe_disposition_name name)) × All FilenameChar (safe_disposition_name name)
unfolding safe_disposition_name
safe_disposition_name-chars name =
    pick (keep is_filename_char name)
      (All-keep FilenameChar is_filename_char is_filename_char→FilenameChar name)
  where
    pick :
        (safe : Bytes)
        → All FilenameChar safe
        → (1 ≤ length (if is_empty safe then codes "download" else safe))
          × All FilenameChar (if is_empty safe then codes "download" else safe)
    pick [] h = (omega arith, omega arith)
    pick (c ∷ s) h = (omega arith, h)

-- A byte that a text field may hold: no control byte but \t, \n and \r.
abbrev pub CleanByte : ℕ → Type 0
CleanByte c = ((32 ≤ c) × (c ≢ 127)) ⊎ (c ≡ 9) ⊎ (c ≡ 10) ⊎ (c ≡ 13)

control→CleanByte : (c : ℕ) → is_refused_control c ≡ false → CleanByte c
control→CleanByte c h = ground arith

CleanByte→control : (c : ℕ) → CleanByte c → is_refused_control c ≡ false
CleanByte→control c h = ground arith

control-free_of_clean : (s : Bytes) → All CleanByte s → contains_control_chars s ≡ false
unfolding contains_control_chars
control-free_of_clean [] h = refl
control-free_of_clean (c ∷ s) (p, h) = rw (CleanByte→control c p) (control-free_of_clean s h)

clean_of_control-free : (s : Bytes) → contains_control_chars s ≡ false → All CleanByte s
unfolding contains_control_chars
clean_of_control-free [] h = tt
clean_of_control-free (c ∷ s) h =
    let (p, r) = or-eq-false (is_refused_control c) (any is_refused_control s) h in
    (control→CleanByte c p, clean_of_control-free s r)

null-free_of_clean : (s : Bytes) → All CleanByte s → contains_null_bytes s ≡ false
unfolding contains_null_bytes
null-free_of_clean [] h = refl
null-free_of_clean (c ∷ s) (p, h) = ground (arith, null-free_of_clean s h)

-- `isCleanString` accepts exactly the texts that fit the given length and hold no control byte
-- but tab, line feed and carriage return.
pub is_clean_string_iff :
    (s : Bytes) (max_len : ℕ)
    → (is_clean_string s max_len ≡ true) ↔ ((length s ≤ max_len) × All CleanByte s)
unfolding is_clean_string
is_clean_string_iff s max_len = (
  λ h. (ground arith, clean_of_control-free s (ground arith)),
  λ (short, clean). ground (arith, control-free_of_clean s clean, null-free_of_clean s clean),
)
