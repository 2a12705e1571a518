-- ===== src/Patch/Refinement/Decided.antt =====
-- When a line operation of a patch succeeds, and what it gives.
use project_tracker.Base.{
  ℕ, ◌≤◌, ◌≡◌, ◌⊎◌, inl, inr, none, arith, length, Bytes, leb, ◌&&◌, Bool-cases,
}
use project_tracker.Text.{split}
use project_tracker.Patch.{apply_patch}
use project_tracker.Patch.Refinement.{
  LineOp, replace, insert, delete, append, patch_of, Fits, IsLineOp, Patched,
}
use project_tracker.Patch.Refinement.Saves.{apply_patch-Patched}
use project_tracker.Patch.Refinement.Refused.{apply_patch-refused}

in_range-cases : (low n high : ℕ) → ((low ≤ n) × (n ≤ high)) ⊎ (¬ ((low ≤ n) × (n ≤ high)))
in_range-cases low n high = elim (Bool-cases (leb low n && leb n high)) [
  | inl e ↦ inl (ground arith, ground arith)
  | inr e ↦ inr (λ h. ground arith)
]

Fits-cases : (op : LineOp) (n : ℕ) → Fits op n ⊎ (¬ Fits op n)
Fits-cases (replace m t) n = in_range-cases 1 m n
Fits-cases (insert m t) n = elim (Bool-cases (leb m n)) [
  | inl e ↦ inl (ground arith)
  | inr e ↦ inr (λ h. ground arith)
]
Fits-cases (delete m) n = in_range-cases 1 m n
Fits-cases (append t) n = inl tt

-- A line operation whose content is one line and whose number fits an `int` either names a line of
-- the file, and then succeeds with the lines that the operation describes, none of which holds a
-- newline: `replace_line` exchanges line n, `insert_line` puts the content behind line n,
-- `delete_line` takes line n out and `append` adds a line; the saved text is each of these lines with
-- a newline behind it, but one newline alone, so one empty line, where `delete_line` has taken out
-- the only line. Or it names none, and is refused.
pub apply_patch-cases :
    (op : LineOp) (content : Bytes)
    → IsLineOp op
    → Patched op content
      ⊎ ((¬ Fits op (length (split content 10))) × (apply_patch (patch_of op) content ≡ none))
apply_patch-cases op content k = elim (Fits-cases op (length (split content 10))) [
  | inl fits ↦ inl (apply_patch-Patched op content k fits)
  | inr not ↦ inr (not, apply_patch-refused op content k not)
]
