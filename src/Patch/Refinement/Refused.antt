-- ===== src/Patch/Refinement/Refused.antt =====
-- The line operations on lines that the file does not have, and on its only line.
use project_tracker.Base.{
  ℕ, ◌≤◌, ◌≡◌, inl, inr, ◌∙◌, Bool, false, ◌&&◌, none, some, List, [], ◌∷◌, arith, length, Bytes,
  leb, Bool-cases,
}
use project_tracker.Text.{split}
use project_tracker.Patch.{apply_patch}
use project_tracker.Patch.Lines.{file_of, split-file_of_nil}
use project_tracker.Patch.Refinement.{
  insert, LineOp, patch_of, edited, Fits, IsLineOp, replace, delete, append,
}
use project_tracker.Patch.Refinement.Results.{replace_lem, insert_lem, delete_lem}

-- Deleting the only line of a file does not leave a file without lines: what is saved is read back
-- as one empty line.
pub delete_only_line :
    (content line : Bytes)
    → split content 10 ≡ line ∷ []
    → (saved : Bytes) × (apply_patch (patch_of (delete 1)) content ≡ some saved)
      × (split saved 10 ≡ [] ∷ [])
delete_only_line content line e =
    (file_of [], delete_lem 1 content (omega arith) ∙ rw e, split-file_of_nil)

out_of_range : (low n high : ℕ) → ¬ ((low ≤ n) × (n ≤ high)) → (leb low n && leb n high) ≡ false
out_of_range low n high h = elim (Bool-cases (leb low n && leb n high)) [
  | inl e ↦ absurd (h (ground arith, ground arith))
  | inr e ↦ e
]

edited-none : (test : Bool) (ls : List Bytes) → test ≡ false → edited test ls ≡ none
edited-none test ls e = rw e

-- An operation on a line that the file does not have is refused.
pub apply_patch-refused :
    (op : LineOp) (content : Bytes)
    → IsLineOp op
    → ¬ Fits op (length (split content 10))
    → apply_patch (patch_of op) content ≡ none
apply_patch-refused (replace n t) content (small, one) f =
    replace_lem n t content small ∙ edited-none _ _ (out_of_range 1 n _ f)
apply_patch-refused (insert n t) content (small, one) f =
    insert_lem n t content small ∙ edited-none _ _ (out_of_range 0 n _ (λ h. f h.1))
apply_patch-refused (delete n) content small f =
    delete_lem n content small ∙ edited-none _ _ (out_of_range 1 n _ f)
apply_patch-refused (append t) content k f = absurd (f tt)
