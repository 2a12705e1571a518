-- ===== src/Config.antt =====
-- src/core/config.cpp: the settings of an .env file. An exception is `none`; the line for the log
-- is left out.
pub mod Lines
use project_tracker.Base.{
  ℕ, suc, ◌+◌, ◌-◌, Bool, true, false, ◌&&◌, ◌||◌, Option, none, some, List, [], ◌∷◌, leb, ◌==◌,
  if◌then◌else◌, length, take, drop, is_empty, last_of, Bytes, codes, bytes_eq, ℤ,
}
use project_tracker.Base.Dict.{lookup, put}
use project_tracker.Text.{trim, split, find, to_lower}
use project_tracker.Validator.{stoi}

pub record Config : Type 0 where
  pub sections : List (Bytes × List (Bytes × Bytes))
  pub loaded : Bool

abbrev pub new_config : Config
new_config = record { sections = []; loaded = false }

-- A missing section reads as an empty one, as `operator[]` makes it.
abbrev pub entries : Option (List (Bytes × Bytes)) → List (Bytes × Bytes)
entries none = []
entries (some m) = m

unfoldable pub section_of : Config → Bytes → List (Bytes × Bytes)
section_of c section = entries (lookup section c.sections)

-- A value in quotes loses them.
unfoldable pub unquoted : Bytes → Bytes
unquoted [] = []
unquoted (c ∷ s) =
    if leb 2 (length (c ∷ s)) && (c == b'"') && (last_of c s == b'"')
    then take (length s - 1) s
    else c ∷ s

-- `sections["env"][key] = value`
unfoldable pub set_env : Config → (key val : Bytes) → Config
set_env c key val = record c {
  sections = put (codes "env") (put key val (section_of c (codes "env"))) c.sections;
}

abbrev pub store_pair : Config → Bytes → Option ℕ → Config
store_pair c trimmed none = c
store_pair c trimmed (some equals_pos) =
    set_env c (trim (take equals_pos trimmed)) (unquoted (trim (drop (equals_pos + 1) trimmed)))

unfoldable pub parse_trimmed : Bytes → Config → Config
parse_trimmed [] c = c
parse_trimmed (b ∷ s) c = if b == b'#' then c else store_pair c (b ∷ s) (find (b ∷ s) (b'=' ∷ []))

unfoldable pub parse_line : Bytes → Config → Config
parse_line line c = parse_trimmed (trim line) c

unfoldable pub parse_lines : List Bytes → Config → Config
parse_lines [] c = c
parse_lines (line ∷ lines) c = parse_lines lines (parse_line line c)

-- `file` is `none` where the file cannot be opened.
unfoldable pub load : (file : Option Bytes) → Config → Option Config
load none c = none
load (some text) c =
    some (record (parse_lines (split text 10) (record c { sections = [] })) { loaded = true })

abbrev pub is_some : {A : Type 0} → Option A → Bool
is_some none = false
is_some (some x) = true

unfoldable pub has_section : Config → Bytes → Bool
has_section c section = is_some (lookup section c.sections)

unfoldable pub has_key : Config → (section key : Bytes) → Bool
has_key c section key =
    if has_section c section then is_some (lookup key (section_of c section)) else false

-- `sections[section][key]`
unfoldable pub value_at : Config → (section key : Bytes) → Bytes
value_at c section key = elim (lookup key (section_of c section)) [ none ↦ [] | some v ↦ v ]

unfoldable pub get : Config → (section key default_value : Bytes) → Bytes
get c section key default_value =
    if has_key c section key then value_at c section key else default_value

unfoldable pub get_int : Config → (section key : Bytes) → (default_value : ℤ) → ℤ
get_int c section key default_value =
    if has_key c section key
    then elim (stoi (value_at c section key)) [ none ↦ default_value | some n ↦ n ]
    else default_value

abbrev pub is_one_of : Bytes → List Bytes → Bool
is_one_of s [] = false
is_one_of s (t ∷ ts) = bytes_eq s t || is_one_of s ts

abbrev pub yes_words : List Bytes
yes_words = codes "true" ∷ codes "1" ∷ codes "yes" ∷ codes "on" ∷ []

abbrev pub no_words : List Bytes
no_words = codes "false" ∷ codes "0" ∷ codes "no" ∷ codes "off" ∷ []

unfoldable pub get_bool : Config → (section key : Bytes) → (default_value : Bool) → Bool
get_bool c section key default_value =
    let val = to_lower (value_at c section key) in
    if has_key c section key
    then if is_one_of val yes_words
      then true
      else if is_one_of val no_words
      then false
      else default_value
    else default_value
