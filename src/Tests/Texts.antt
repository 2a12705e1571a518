-- ===== src/Tests/Texts.antt =====
-- Sanitizer, Validator, Config and the text helpers.
use project_tracker.Base.{
  ◌≡◌, ◌↔◌, refl, true, false, [], ◌∷◌, some, none, Bytes, codes, pos, negsuc, bytes_eq,
}
use project_tracker.Base.Dict.{lookup, put}
use project_tracker.Text.{
  trim, ltrim, rtrim, skip_space, split, read_tokens, to_lower, to_upper, starts_with, ends_with,
  find, find_from, contains, remove_chars,
}
use project_tracker.Sanitizer.{
  is_valid_slug, sanitize_slug, trim_front, trim_back, is_valid_filename, contains_null_bytes,
  has_allowed_extension, default_extensions, safe_disposition_name, load_allowed_extensions,
  load_parts, is_valid_status, is_clean_string, contains_control_chars,
}
use project_tracker.Sanitizer.Slug.{IsSlug, is_valid_slug_iff}
use project_tracker.Sanitizer.Filename.{IsSafeName, is_valid_filename-IsSafeName}
use project_tracker.Validator.{
  stoi, read_sign, read_signed, as_signed, leading_number, safe_param_int, safe_string_to_int,
  safe_param_string,
}
use project_tracker.Config.{
  parse_line, parse_trimmed, set_env, section_of, get, has_key, has_section, value_at, unquoted,
}

texts : Unit {0}
unfolding trim ltrim rtrim skip_space split read_tokens to_lower to_upper starts_with ends_with find
    find_from contains remove_chars is_valid_slug sanitize_slug trim_front trim_back
    is_valid_filename contains_null_bytes has_allowed_extension safe_disposition_name
    load_allowed_extensions load_parts is_valid_status is_clean_string contains_control_chars stoi
    read_sign read_signed as_signed leading_number safe_param_int safe_string_to_int
    safe_param_string parse_line parse_trimmed set_env section_of get has_key has_section value_at
    unquoted lookup put bytes_eq
texts = tt

text_tests :
    (trim (codes "  a b ") ≡ codes "a b")
    × (split (codes "a,,b,") 44 ≡ codes "a" ∷ [] ∷ codes "b" ∷ [])
    × (to_upper (codes "Ab1") ≡ codes "AB1")
    × (starts_with (codes "main.cpp") (codes "main") ≡ true)
    × (ends_with (codes "main.cpp") (codes ".h") ≡ false)
    × (remove_chars (codes "a-b-c") (codes "-") ≡ codes "abc")
unfolding texts
text_tests = (refl, refl, refl, refl, refl, refl)

sanitizer_tests :
    (is_valid_slug (codes "my-app") ≡ true)
    × (is_valid_slug (codes "-app") ≡ false)
    × (sanitize_slug (codes "__My App!") ≡ codes "myapp")
    × (is_valid_filename default_extensions (codes "../x.md") ≡ false)
    × (is_valid_status (codes "all") ≡ true)
    × (safe_disposition_name (codes "a\"b.md") ≡ codes "ab.md")
unfolding texts
sanitizer_tests = (refl, refl, refl, refl, refl, refl)

number_tests :
    (stoi (codes " -12x") ≡ some (negsuc 11))
    × (stoi (codes "2147483648") ≡ none)
    × (safe_param_int (some (codes "5000")) (pos 0) (pos 0) (pos 1000) ≡ pos 1000)
    × (safe_param_string (some (codes "abc")) 2 ≡ codes "ab")
unfolding texts
number_tests = (refl, refl, refl, refl)

is_valid_slug_iff_example : (is_valid_slug (codes "my-app") ≡ true) ↔ IsSlug (codes "my-app")
is_valid_slug_iff_example = is_valid_slug_iff (codes "my-app")

abbrev long_slug : Bytes
long_slug = codes "aaaaaaaaaaaaaaaaaaaaaaaaaaaaaaaaaaaaaaaaaaaaaaaaaaaaaaaaaaaaaaa"

is_valid_filename-IsSafeName_example : IsSafeName default_extensions (codes "notes.md")
unfolding texts
is_valid_filename-IsSafeName_example =
    is_valid_filename-IsSafeName default_extensions (codes "notes.md") refl
