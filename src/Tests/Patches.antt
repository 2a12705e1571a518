-- ===== src/Tests/Patches.antt =====
-- Edits of files.
use project_tracker.Base.{◌⊎◌, none, length, ◌≡◌, refl, arith, some, Bytes, codes, bytes_eq}
use project_tracker.Text.{split, read_tokens, find, find_from, starts_with}
use project_tracker.Json.{string_at, int_at, to_int, at, find_field}
use project_tracker.Patch.{
  join_rest, join_lines, find_replace, replace_found, apply_patch, edit_lines, edit_with,
}
use project_tracker.Patch.Refinement.{Fits, replace, insert, delete, append, patch_of, Patched}
use project_tracker.Patch.Refinement.Decided.{apply_patch-cases}
use project_tracker.Patch.Replace.{replacement, IsJoined, Replaces, find_replace-cases}

patches : Unit {0}
unfolding bytes_eq split read_tokens find find_from starts_with string_at int_at to_int at
    find_field join_rest join_lines find_replace replace_found apply_patch edit_lines edit_with
patches = tt

abbrev content : Bytes
content = codes "ab\ncd\n"

patch_tests :
    (apply_patch (patch_of (replace 2 (codes "x"))) content ≡ some (codes "ab\nx\n"))
    × (apply_patch (patch_of (insert 1 (codes "x"))) content ≡ some (codes "ab\nx\ncd\n"))
    × (apply_patch (patch_of (delete 1)) content ≡ some (codes "cd\n"))
    × (apply_patch (patch_of (append (codes "x"))) content ≡ some (codes "ab\ncd\nx\n"))
    × (apply_patch (replacement (codes "b\nc") (codes "-")) content ≡ some (codes "a-d\n"))
    × (apply_patch (patch_of (delete 4294967298)) content ≡ some (codes "ab\n"))
unfolding patches
patch_tests = (refl, refl, refl, refl, refl, refl)

apply_patch-cases_example :
    Patched (replace 2 (codes "x")) content
    ⊎ ((¬ Fits (replace 2 (codes "x")) (length (split content 10)))
        × (apply_patch (patch_of (replace 2 (codes "x"))) content ≡ none))
apply_patch-cases_example = apply_patch-cases (replace 2 (codes "x")) content (ground arith)

find_replace-cases_example :
    (joined : Bytes) × IsJoined content joined × Replaces (codes "c") (codes "-") content joined
find_replace-cases_example = find_replace-cases (codes "c") (codes "-") content
