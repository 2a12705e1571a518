-- ===== src/Browser/Editor.antt =====
-- webui/js/editor.js: the creation of a file under a new name.
pub mod Copies
pub mod Spares
use project_tracker.Base.{
  ℕ, zero, suc, ◌+◌, Bool, true, false, not, ◌&&◌, ◌||◌, Option, none, some, List, [], ◌∷◌, ◌++◌,
  ltb, leb, ◌==◌, if◌then◌else◌, is_empty, take, drop, Bytes, codes,
}
use mathlib.Core.List.{reverse}
use project_tracker.Text.{find, contains_byte}
use project_tracker.Http.{Response}
use project_tracker.Browser.{api, is_missing}

-- The white space and the line ends of JavaScript, which `js_trim` takes off.
unfoldable pub is_js_space : ℕ → Bool
is_js_space c =
    (leb 9 c && leb c 13)
    || (c == 32)
    || (c == 160)
    || (c == 5760)
    || (leb 8192 c && leb c 8202)
    || (c == 8232)
    || (c == 8233)
    || (c == 8239)
    || (c == 8287)
    || (c == 12288)
    || (c == 65279)

unfoldable pub trim_start : Bytes → Bytes
trim_start [] = []
trim_start (c ∷ s) = if is_js_space c then trim_start s else c ∷ s

unfoldable pub js_trim : Bytes → Bytes
unfolding trim_start
js_trim s = reverse (trim_start (reverse (trim_start s)))

-- `lastIndexOf`, with `none` for -1
unfoldable pub last_index_of : Bytes → ℕ → Option ℕ
last_index_of [] b = none
last_index_of (c ∷ s) b = elim (last_index_of s b) [
  | some i ↦ some (suc i)
  | none ↦ if c == b then some 0 else none
]

-- `replace` of a text, which stands for its first occurrence, by nothing
unfoldable pub without_first : Bytes → Bytes → Bytes
without_first s p = elim (find s p) [
  | none ↦ s
  | some i ↦ take i s ++ drop (i + project_tracker.Base.length p) s
]

-- `App.currentSlug`, `App.currentFile` and the name that waits for the answer of the user.
pub record Editor : Type 0 where
  pub current_slug : Option Bytes
  pub current_file : Option Bytes
  pub pending_file_name : Option Bytes

-- What a click leads to: nothing more, the question what to do with the file that is there, or the
-- PUT of a new file.
pub data Outcome : Type 0 where
  stops : Outcome
  asks_back : (name : Bytes) → Outcome
  puts : (name body : Bytes) → Outcome

unfoldable pub show_new_file : Editor → Editor
show_new_file e = record e { pending_file_name = none }

-- The content of a new file.
unfoldable pub heading : (name : Bytes) → Bytes
heading name = codes "# " ++ (without_first name (codes ".md") ++ codes "\n")

-- `doCreateFile`, which closes the dialogue and opens the file.
unfoldable pub do_create_file : Editor → (name : Bytes) → Editor × Outcome
do_create_file e name =
    (record e { current_file = some name; pending_file_name = none }, puts name (heading name))

abbrev pub with_extension : Bytes → Bytes
with_extension name = if contains_byte name b'.' then name else name ++ codes ".md"

-- `ask` is the answer to the GET of a file of the current project.
unfoldable pub create_named : (ask : Bytes → Option Response) → Editor → Bytes → Editor × Outcome
unfolding do_create_file
create_named ask e name =
    let pending = record e { pending_file_name = some name } in
    if is_missing (api (ask name)) then do_create_file pending name else (pending, asks_back name)

unfoldable pub create_in :
    (ask : Bytes → Option Response)
    → Editor
    → (typed : Bytes) → (current_slug : Option Bytes) → Editor × Outcome
create_in ask e typed none = (e, stops)
create_in ask e typed (some slug) =
    if is_empty slug || is_empty (js_trim typed)
    then (e, stops)
    else create_named ask e (with_extension (js_trim typed))

unfoldable pub create_file :
    (ask : Bytes → Option Response) → Editor → (typed : Bytes) → Editor × Outcome
unfolding create_in
create_file ask e typed = create_in ask e typed e.current_slug

-- The name before its last dot, unless that is the first byte, and what is behind it.
unfoldable pub name_parts : Bytes → Bytes × Bytes
unfolding last_index_of
name_parts name = elim (last_index_of name b'.') [
  | none ↦ (name, codes ".md")
  | some ext ↦ if ltb 0 ext then (take ext name, drop ext name) else (name, codes ".md")
]

-- The texts of numbers are those of `String(num)`.
module _ (print : ℕ → Bytes) (ask : Bytes → Option Response) where
  abbrev pub try_name : (name : Bytes) → (num : ℕ) → Bytes
  try_name name num =
      let (base, suffix) = name_parts name in base ++ (codes "-" ++ (print num ++ suffix))

  -- The loop from `num` on, `rounds` times at most: the first name that the server does not have.
  unfoldable pub free_name : (name : Bytes) → (num rounds : ℕ) → Option Bytes
  free_name name num zero = none
  free_name name num (suc rounds) =
      let rest = free_name name (suc num) rounds in
      if is_missing (api (ask (try_name name num))) then some (try_name name num) else rest

  abbrev pub or_same : Option Bytes → (name : Bytes) → Bytes
  or_same none name = name
  or_same (some free) name = free

  -- `resolveConflict` with the action `copy` or `overwrite`; without a pending name it throws.
  unfoldable pub resolve_conflict : Editor → (copy : Bool) → Editor × Outcome
  unfolding do_create_file free_name
  resolve_conflict e copy = elim e.pending_file_name [
    | none ↦ (e, stops)
    | some name ↦ do_create_file e (if copy then or_same (free_name name 2 98) name else name)
  ]
