-- ===== src/Patch/Refinement.antt =====
-- The line operations of a patch against their description as edits of a list of lines.
pub mod Results
pub mod Saves
pub mod Refused
pub mod Decided
use project_tracker.Base.{
  ℕ, zero, suc, ◌+◌, ◌-◌, ◌^◌, ◌≤◌, ◌<◌, ◌≡◌, ◌≢◌, inl, inr, refl, sym, ap, ◌∙◌, Bool, true, false,
  ◌&&◌, Option, none, some, List, [], ◌∷◌, ◌++◌, arith, All, All-append, All-take, length, set,
  take, drop, Bytes, codes, leb, Bool-cases, if◌then◌else◌, pos,
}
use project_tracker.Text.{split}
use project_tracker.Text.Split.{Lacks, split-Lacks}
use project_tracker.Json.{Json, object, field, end, string, integer, to_int, string_at, int_at}
use project_tracker.Patch.{saved, apply_patch}
use project_tracker.Patch.Lines.{
  file_of, text_of, split-file_of, split-file_of_nil, All-set, All-drop, take-drop, length-take,
  splits_at,
}

pub data LineOp : Type 0 where
  replace insert : (line : ℕ) (content : Bytes) → LineOp
  delete : (line : ℕ) → LineOp
  append : (content : Bytes) → LineOp

-- The request that asks for an operation.
abbrev pub patch_of : LineOp → Json
patch_of (replace n t) = object (
    field (codes "op") (string (codes "replace_line"))
      (field (codes "line") (integer (pos n)) (field (codes "content") (string t) end)))
patch_of (insert n t) = object (
    field (codes "op") (string (codes "insert_line"))
      (field (codes "line") (integer (pos n)) (field (codes "content") (string t) end)))
patch_of (delete n) =
    object (
      field (codes "op") (string (codes "delete_line"))
        (field (codes "line") (integer (pos n)) end))
patch_of (append t) =
    object (field (codes "op") (string (codes "append")) (field (codes "content") (string t) end))

abbrev pub edited : Bool → List Bytes → Option Bytes
edited test lines = if test then some (file_of lines) else none

-- The line number of an operation is one of the file's, which are counted from 1; an insertion
-- goes behind the line, and behind line 0 at the top.
abbrev pub Fits : LineOp → ℕ → Type 0
Fits (replace n t) count = (1 ≤ n) × (n ≤ count)
Fits (insert n t) count = n ≤ count
Fits (delete n) count = (1 ≤ n) × (n ≤ count)
Fits (append t) count = Unit {0}

-- What the operation makes of a list of lines.
abbrev pub Edits : LineOp → List Bytes → List Bytes → Type 0
Edits (replace n t) ls ls' =
    (before : List Bytes) × (line : Bytes) × (after : List Bytes) × (length before + 1 ≡ n)
    × (ls ≡ before ++ line ∷ after)
    × (ls' ≡ before ++ t ∷ after)
Edits (insert n t) ls ls' =
    (before : List Bytes) × (after : List Bytes) × (length before ≡ n)
    × (ls ≡ before ++ after)
    × (ls' ≡ before ++ t ∷ after)
Edits (delete n) ls ls' =
    (before : List Bytes) × (line : Bytes) × (after : List Bytes) × (length before + 1 ≡ n)
    × (ls ≡ before ++ line ∷ after)
    × (ls' ≡ before ++ after)
Edits (append t) ls ls' = ls' ≡ ls ++ t ∷ []

-- The line number fits an `int`, and the new content is one line.
abbrev pub IsLineOp : LineOp → Type 0
IsLineOp (replace n t) = (n < 2 ^ 31) × Lacks 10 t
IsLineOp (insert n t) = (n < 2 ^ 31) × Lacks 10 t
IsLineOp (delete n) = n < 2 ^ 31
IsLineOp (append t) = Lacks 10 t

-- The operation succeeds on the content, with these lines as a result, and saves each of them with a
-- newline behind it; if none is left, it saves one empty line.
pub record Patched (op : LineOp) (content : Bytes) : Type 0 where
  pub lines : List Bytes
  pub edits : Edits op (split content 10) lines
  pub saves : apply_patch (patch_of op) content ≡ some (text_of lines)
  pub one_line_each : All (Lacks 10) lines
