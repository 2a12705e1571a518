-- ===== src/Patch/Refinement/Results.antt =====
-- What each line operation saves, before its lines are compared.
use project_tracker.Base.{
  ap, ℕ, suc, ◌-◌, ◌^◌, ◌≤◌, ◌<◌, ◌≡◌, refl, Bool, true, ◌&&◌, some, List, [], ◌∷◌, ◌++◌, arith,
  length, set, take, drop, Bytes, leb, pos,
}
use project_tracker.Text.{split}
use project_tracker.Json.{to_int, string_at, int_at}
use project_tracker.Patch.{apply_patch}
use project_tracker.Patch.Lines.{file_of, text_of, file_of-text_of}
use project_tracker.Patch.Refinement.{insert, patch_of, edited, replace, delete, append}

to_int_small : (n : ℕ) → n < 2 ^ 31 → to_int (pos n) ≡ pos n
unfolding to_int
to_int_small n h = ground arith

pub replace_lem :
    (n : ℕ) (t content : Bytes)
    → n < 2 ^ 31
    → apply_patch (patch_of (replace n t)) content
      ≡ edited (leb 1 n && leb n (length (split content 10))) (set (split content 10) (n - 1) t)
unfolding apply_patch string_at int_at
replace_lem n t content h = rw (to_int_small n h) (ground arith)

pub insert_lem :
    (n : ℕ) (t content : Bytes)
    → n < 2 ^ 31
    → apply_patch (patch_of (insert n t)) content
      ≡ edited
          (leb 0 n && leb n (length (split content 10)))
          (take n (split content 10) ++ t ∷ drop n (split content 10))
unfolding apply_patch string_at int_at
insert_lem n t content h = rw (to_int_small n h) (ground arith)

pub delete_lem :
    (n : ℕ) (content : Bytes)
    → n < 2 ^ 31
    → apply_patch (patch_of (delete n)) content
      ≡ edited
          (leb 1 n && leb n (length (split content 10)))
          (take (n - 1) (split content 10) ++ drop n (split content 10))
unfolding apply_patch string_at int_at
delete_lem n content h = rw (to_int_small n h) (ground arith)

pub append_lem :
    (t content : Bytes)
    → apply_patch (patch_of (append t)) content ≡ some (file_of (split content 10 ++ t ∷ []))
unfolding apply_patch string_at int_at
append_lem t content = refl

pub edited_lem :
    (test : Bool) {ls ls' : List Bytes}
    → test ≡ true
    → ls ≡ ls'
    → edited test ls ≡ some (text_of ls')
edited_lem test {ls} {ls'} e f = rw (e, f) (ap some (file_of-text_of ls'))

pub in_range : (low n high : ℕ) → low ≤ n → n ≤ high → (leb low n && leb n high) ≡ true
in_range low n high h k = ground arith

pub pred_suc : (i : ℕ) → suc i - 1 ≡ i
pred_suc i = omega arith
