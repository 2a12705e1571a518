-- ===== src/Validator.antt =====
-- src/security/validator.cpp. `stoi` is that of the C++ standard; `none` stands for its exceptions.
pub mod Bounds
pub mod Ranges
use project_tracker.Base.{
  ℕ, zero, suc, ◌+◌, ◌-◌, ◌*◌, ◌^◌, Bool, true, false, ◌&&◌, ◌||◌, Option, none, some, List, [],
  ◌∷◌, ltb, leb, ◌==◌, if◌then◌else◌, length, take, is_empty, Bytes, codes, ℤ, pos, negsuc, ltb_ℤ,
}
use project_tracker.Text.{is_digit, skip_space, to_lower, contains}

abbrev pub is_body_size_valid : (body_size max_bytes : ℕ) → Bool
is_body_size_valid body_size max_bytes = leb body_size max_bytes

unfoldable pub has_json_content_type : Bytes → Bool
has_json_content_type content_type = contains (to_lower content_type) (codes "application/json")

unfoldable pub has_text_content_type : Bytes → Bool
has_text_content_type content_type =
    contains (to_lower content_type) (codes "text/plain")
    || contains (to_lower content_type) (codes "text/")

-- The number that the leading digits write, behind a number read so far.
unfoldable pub leading_number : ℕ → Bytes → ℕ
leading_number n [] = n
leading_number n (c ∷ s) = if is_digit c then leading_number (n * 10 + (c - 48)) s else n

abbrev pub begins_with_digit : Bytes → Bool
begins_with_digit [] = false
begins_with_digit (c ∷ s) = is_digit c

abbrev pub negated : ℕ → ℤ
negated zero = pos 0
negated (suc n) = negsuc n

-- A value out of the range of `int` throws.
unfoldable pub as_signed : (negative : Bool) → ℕ → Option ℤ
as_signed negative n =
    if negative
    then if leb n (2 ^ 31) then some (negated n) else none
    else if ltb n (2 ^ 31)
    then some (pos n)
    else none

unfoldable pub read_signed : (negative : Bool) → Bytes → Option ℤ
read_signed negative s =
    if begins_with_digit s then as_signed negative (leading_number 0 s) else none

unfoldable pub read_sign : Bytes → Option ℤ
read_sign [] = none
read_sign (c ∷ s) =
    if c == 45
    then read_signed true s
    else if c == 43
    then read_signed false s
    else read_signed false (c ∷ s)

unfoldable pub stoi : Bytes → Option ℤ
stoi s = read_sign (skip_space s)

abbrev pub clamp : (min_val max_val val : ℤ) → ℤ
clamp min_val max_val val =
    if ltb_ℤ val min_val then min_val else if ltb_ℤ max_val val then max_val else val

unfoldable pub safe_string_to_int : Bytes → (default_val min_val max_val : ℤ) → ℤ
safe_string_to_int s default_val min_val max_val =
    if is_empty s
    then default_val
    else elim (stoi s) [ none ↦ default_val | some val ↦ clamp min_val max_val val ]

-- `none` is the null pointer, a parameter that the request does not have.
unfoldable pub safe_param_string : Option Bytes → (max_len : ℕ) → Bytes
safe_param_string none max_len = []
safe_param_string (some s) max_len = if ltb max_len (length s) then take max_len s else s

unfoldable pub safe_param_int : Option Bytes → (default_val min_val max_val : ℤ) → ℤ
safe_param_int none default_val min_val max_val = default_val
safe_param_int (some s) default_val min_val max_val =
    safe_string_to_int s default_val min_val max_val
