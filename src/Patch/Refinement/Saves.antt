-- ===== src/Patch/Refinement/Saves.antt =====
-- The line operations on lines of the file.
use project_tracker.Base.{
  ℕ, zero, suc, ◌≡◌, ◌≢◌, refl, sym, ap, ◌∙◌, some, List, [], ◌∷◌, ◌++◌, arith, All-append,
  All-take, length, set, take, drop, Bytes,
}
use project_tracker.Text.{split}
use project_tracker.Text.Split.{Lacks, split-Lacks}
use project_tracker.Patch.{saved, apply_patch}
use project_tracker.Patch.Lines.{
  file_of, file_of-text_of, split-file_of, All-set, All-drop, take-drop, length-take, splits_at,
}
use project_tracker.Patch.Refinement.{
  insert, LineOp, patch_of, Fits, Edits, IsLineOp, Patched, replace, delete, append,
}
use project_tracker.Patch.Refinement.Results.{
  replace_lem, insert_lem, delete_lem, append_lem, edited_lem, in_range, pred_suc,
}

module _ (content : Bytes) where
  abbrev old : List Bytes
  old = split content 10

  replace-Patched :
      (n : ℕ) (t : Bytes)
      → IsLineOp (replace n t)
      → Fits (replace n t) (length old)
      → Patched (replace n t) content
  replace-Patched zero t k f = absurd (omega arith)
  replace-Patched (suc i) t (small, one) (low, high) =
      let s = splits_at old i high in
      record {
        lines = set old i t;
        edits = (
          take i old,
          s.line,
          drop (suc i) old,
          omega (arith, length-take i old (omega arith)),
          s.splits,
          s.sets t,
        );
        saves =
            replace_lem (suc i) t content small
            ∙ edited_lem _ (in_range 1 (suc i) (length old) low high)
                (ap (λ k. set old k t) (pred_suc i));
        one_line_each = All-set (Lacks 10) old i t (split-Lacks 10 content) one;
      }

  insert-Patched :
      (n : ℕ) (t : Bytes)
      → IsLineOp (insert n t)
      → Fits (insert n t) (length old)
      → Patched (insert n t) content
  insert-Patched n t (small, one) f = record {
    lines = take n old ++ t ∷ drop n old;
    edits = (take n old, drop n old, length-take n old f, take-drop n old, refl);
    saves =
        insert_lem n t content small
        ∙ edited_lem _ (in_range 0 n (length old) (omega arith) f) refl;
    one_line_each =
        All-append (Lacks 10) (take n old) (t ∷ drop n old)
          (All-take (Lacks 10) n old (split-Lacks 10 content))
          (one, All-drop (Lacks 10) n old (split-Lacks 10 content));
  }

  delete-Patched :
      (n : ℕ) → IsLineOp (delete n) → Fits (delete n) (length old) → Patched (delete n) content
  delete-Patched zero k f = absurd (omega arith)
  delete-Patched (suc i) small (low, high) =
      let s = splits_at old i high in
      record {
        lines = take i old ++ drop (suc i) old;
        edits = (
          take i old,
          s.line,
          drop (suc i) old,
          omega (arith, length-take i old (omega arith)),
          s.splits,
          refl,
        );
        saves =
            delete_lem (suc i) content small
            ∙ edited_lem _ (in_range 1 (suc i) (length old) low high)
                (ap (λ k. take k old ++ drop (suc i) old) (pred_suc i));
        one_line_each =
            All-append (Lacks 10) (take i old) (drop (suc i) old)
              (All-take (Lacks 10) i old (split-Lacks 10 content))
              (All-drop (Lacks 10) (suc i) old (split-Lacks 10 content));
      }

  append-Patched : (t : Bytes) → IsLineOp (append t) → Patched (append t) content
  append-Patched t one = record {
    lines = old ++ t ∷ [];
    edits = refl;
    saves = append_lem t content ∙ ap some (file_of-text_of (old ++ t ∷ []));
    one_line_each = All-append (Lacks 10) old (t ∷ []) (split-Lacks 10 content) (one, tt);
  }

-- A line operation whose line number is in the file succeeds, and the saved text stands for exactly
-- the lines that the operation describes: `replace_line` exchanges line n, `insert_line` puts the
-- content behind line n, `delete_line` takes line n out, `append` adds a line. The content is one
-- line and the number fits an `int`.
pub apply_patch-Patched :
    (op : LineOp) (content : Bytes)
    → IsLineOp op
    → Fits op (length (split content 10))
    → Patched op content
apply_patch-Patched (replace n t) content k f = replace-Patched content n t k f
apply_patch-Patched (insert n t) content k f = insert-Patched content n t k f
apply_patch-Patched (delete n) content k f = delete-Patched content n k f
apply_patch-Patched (append t) content k f = append-Patched content t k

-- Reading the patched file back gives these lines, unless the only line was deleted.
pub split-apply_patch :
    (op : LineOp) (content saved : Bytes)
    → IsLineOp op
    → Fits op (length (split content 10))
    → apply_patch (patch_of op) content ≡ some saved
    → ((lines : List Bytes) × Edits op (split content 10) lines
        × (lines ≢ [] → split saved 10 ≡ lines))
split-apply_patch op content saved k f e =
    let p = apply_patch-Patched op content k f in
    let same : file_of p.lines ≡ saved = file_of-text_of p.lines ∙ cc (p.saves, e) in
    (
      p.lines,
      p.edits,
      λ some_line.
          ap (λ t. split t 10) (sym same) ∙ split-file_of p.lines some_line p.one_line_each,
    )
