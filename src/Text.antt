-- ===== src/Text.antt =====
-- src/utils/string_utils.cpp, and what the program uses of `std::string`: `find`, `std::getline`
-- and the character classes of <cctype> in the "C" locale, the only one the program runs in.
pub mod Trim
pub mod Split
pub mod Find
use mathlib.Core.List.{reverse}
use project_tracker.Base.{
  ℕ, suc, ◌+◌, ◌-◌, Bool, true, false, not, ◌&&◌, ◌||◌, Option, none, some, List, [], ◌∷◌, ◌++◌,
  map, ltb, leb, ◌==◌, if◌then◌else◌, length, is_empty, take, drop, any, keep, Bytes, bytes_eq,
}

-- `std::isspace`: space, \t, \n, \v, \f, \r
abbrev pub is_space : ℕ → Bool
is_space c = (c == 32) || (leb 9 c && leb c 13)

abbrev pub is_lower : ℕ → Bool
is_lower c = leb b'a' c && leb c b'z'

abbrev pub is_upper : ℕ → Bool
is_upper c = leb b'A' c && leb c b'Z'

abbrev pub is_digit : ℕ → Bool
is_digit c = leb b'0' c && leb c b'9'

abbrev pub is_alnum : ℕ → Bool
is_alnum c = is_lower c || is_upper c || is_digit c

-- `std::iscntrl`
abbrev pub is_cntrl : ℕ → Bool
is_cntrl c = ltb c 32 || (c == 127)

-- The range from the first byte that is no space: `std::find_if` with `!isspace`.
unfoldable pub skip_space : Bytes → Bytes
skip_space [] = []
skip_space (c ∷ s) = if is_space c then skip_space s else c ∷ s

unfoldable pub ltrim : Bytes → Bytes
ltrim str = skip_space str

-- The search runs over the reverse iterators.
unfoldable pub rtrim : Bytes → Bytes
rtrim str = reverse (skip_space (reverse str))

unfoldable pub trim : Bytes → Bytes
unfolding ltrim rtrim skip_space
trim str = ltrim (rtrim str)

-- The loop `while (std::getline(stream, token, delimiter)) tokens.push_back(token)`, with the
-- bytes of the token read so far: a token ends at a delimiter, or at the end if it has a byte.
unfoldable pub read_tokens : ℕ → Bytes → Bytes → List Bytes
read_tokens delimiter token [] = if is_empty token then [] else token ∷ []
read_tokens delimiter token (c ∷ s) = elim (c == delimiter) [
  | true ↦ token ∷ read_tokens delimiter [] s
  | false ↦ read_tokens delimiter (token ++ c ∷ []) s
]

unfoldable pub split : Bytes → ℕ → List Bytes
unfolding read_tokens
split str delimiter = read_tokens delimiter [] str

abbrev pub lower : ℕ → ℕ
lower c = if is_upper c then c + 32 else c

abbrev pub upper : ℕ → ℕ
upper c = if is_lower c then c - 32 else c

unfoldable pub to_lower : Bytes → Bytes
to_lower str = map lower str

unfoldable pub to_upper : Bytes → Bytes
to_upper str = map upper str

unfoldable pub starts_with : Bytes → Bytes → Bool
unfolding bytes_eq
starts_with str prefix =
    if ltb (length str) (length prefix) then false else bytes_eq (take (length prefix) str) prefix

unfoldable pub ends_with : Bytes → Bytes → Bool
unfolding bytes_eq
ends_with str suffix =
    if ltb (length str) (length suffix)
    then false
    else bytes_eq (drop (length str - length suffix) str) suffix

unfoldable pub remove_chars : Bytes → Bytes → Bytes
remove_chars str chars = keep (λ c. not (any (λ d. d == c) chars)) str

-- `std::string::find(p)`: the first position at which `p` stands, counted from `i`.
unfoldable pub find_from : Bytes → Bytes → ℕ → Option ℕ
unfolding starts_with
find_from [] p i = if is_empty p then some i else none
find_from (c ∷ s) p i = if starts_with (c ∷ s) p then some i else find_from s p (suc i)

unfoldable pub find : Bytes → Bytes → Option ℕ
unfolding find_from
find str p = find_from str p 0

-- `find(p) != std::string::npos`
unfoldable pub contains : Bytes → Bytes → Bool
unfolding find
contains str p = elim (find str p) [ none ↦ false | some i ↦ true ]

-- `find(p) == 0`
unfoldable pub found_at_start : Bytes → Bytes → Bool
unfolding find
found_at_start str p = elim (find str p) [ none ↦ false | some i ↦ i == 0 ]

-- `find(c) != std::string::npos`, for one byte
abbrev pub contains_byte : Bytes → ℕ → Bool
contains_byte str b = any (λ c. c == b) str
