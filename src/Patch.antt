-- ===== src/Patch.antt =====
-- The edit of a file's content in `ProjectDB::patchFile`, src/db/database.cpp.
pub mod Lines
pub mod Refinement
pub mod Replace
use project_tracker.Base.{
  ℕ, zero, suc, ◌+◌, ◌-◌, Bool, true, false, ◌&&◌, Option, none, some, List, [], ◌∷◌, ◌++◌, ltb,
  leb, if◌then◌else◌, length, set, take, drop, Bytes, bytes_eq, codes, ℤ, pos, negsuc,
}
use project_tracker.Text.{split, find}
use project_tracker.Json.{Json, string_at, int_at}

abbrev pub newline : ℕ
newline = b'\n'

-- The lines behind the first, each with "\n" in front.
unfoldable pub join_rest : List Bytes → Bytes
join_rest [] = []
join_rest (l ∷ ls) = newline ∷ (l ++ join_rest ls)

-- `if (i > 0) joined += "\n"; joined += lines[i];`
unfoldable pub join_lines : List Bytes → Bytes
unfolding join_rest
join_lines [] = []
join_lines (l ∷ ls) = l ++ join_rest ls

abbrev pub or_empty : Option Bytes → Bytes
or_empty none = []
or_empty (some s) = s

abbrev pub or_zero : Option ℤ → ℤ
or_zero none = pos 0
or_zero (some n) = n

-- `linenum >= low && linenum <= lines.size()`, for a `low` of 0 or 1
abbrev pub in_lines : ℕ → ℤ → List Bytes → Bool
in_lines low (pos n) lines = leb low n && leb n (length lines)
in_lines low (negsuc n) lines = false

abbrev pub index : ℤ → ℕ
index (pos n) = n
index (negsuc n) = 0

-- `joined.replace(pos, find_str.length(), with_str)`, where `find_str` was found
unfoldable pub replace_found : Bytes → (find_str with_str : Bytes) → Option ℕ → Option (List Bytes)
replace_found joined find_str with_str none = none
replace_found joined find_str with_str (some at) =
    some (split (take at joined ++ (with_str ++ drop (at + length find_str) joined)) newline)

unfoldable pub find_replace : List Bytes → Option Bytes → (with_str : Bytes) → Option (List Bytes)
find_replace lines none with_str = none
find_replace lines (some find_str) with_str =
    replace_found (join_lines lines) find_str with_str (find (join_lines lines) find_str)

-- The chain of operations; `none` where `ok` stays false or the method returns early.
unfoldable pub edit_lines :
    Json → (op text : Bytes) → (linenum : ℤ) → List Bytes → Option (List Bytes)
unfolding bytes_eq
edit_lines patch op text linenum lines =
    if bytes_eq op (codes "replace_line") && in_lines 1 linenum lines
    then some (set lines (index linenum - 1) text)
    else if bytes_eq op (codes "insert_line") && in_lines 0 linenum lines
    then some (take (index linenum) lines ++ text ∷ drop (index linenum) lines)
    else if bytes_eq op (codes "delete_line") && in_lines 1 linenum lines
    then some (take (index linenum - 1) lines ++ drop (index linenum) lines)
    else if bytes_eq op (codes "append")
    then some (lines ++ text ∷ [])
    else if bytes_eq op (codes "find_replace")
    then find_replace lines (string_at (codes "find") patch)
        (or_empty (string_at (codes "with") patch))
    else none

unfoldable pub edit_with : Option Bytes → Json → Bytes → Option (List Bytes)
edit_with none patch content = none
edit_with (some op) patch content =
    edit_lines patch op (or_empty (string_at (codes "content") patch))
      (or_zero (int_at (codes "line") patch)) (split content newline)

abbrev pub saved : Option (List Bytes) → Option Bytes
saved none = none
saved (some lines) = some (join_lines lines ++ newline ∷ [])

-- The new content, `none` where the patch is refused.
unfoldable pub apply_patch : Json → Bytes → Option Bytes
unfolding edit_with edit_lines
apply_patch patch content = saved (edit_with (string_at (codes "op") patch) patch content)
