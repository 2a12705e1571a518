-- ===== src/Tests/Databases.antt =====
-- The store of projects and files.
use mathlib.Core.List.{Perm, Permᴰ, reverse}
use mathlib.Core.List.Perm
use project_tracker.Base.{
  ◌-◌, length, take, drop, map, pos, ◌≡◌, refl, true, false, List, [], ◌∷◌, some, codes, bytes_eq,
}
use project_tracker.Text.{contains, split, read_tokens, find, find_from, starts_with}
use project_tracker.Json.{string_at, int_at, to_int, at, find_field}
use project_tracker.Models.{Project, empty_project}
use project_tracker.Patch.{join_rest, join_lines, find_replace, apply_patch, edit_lines, edit_with}
use project_tracker.Patch.Refinement.{patch_of, append}
use project_tracker.Db.{
  Sql, SqlLaws, Database, empty_database, select_project, get_project_id_unlocked, select_file,
  upsert_file,
}
use project_tracker.Db.Projects.{
  get_all, list_entry, create, new_row, update, remove, remove_in_transaction,
}
use project_tracker.Db.Files.{
  get_file, put_file, delete_file, patch_file, patch_in_project, write_file,
}
use project_tracker.Db.Files.Laws.{all_through, get_file-patch_file}
use project_tracker.Db.Calls.{Call, creates, puts, removes, run, step}
use project_tracker.Db.Calls.Failures.{step-false}
use project_tracker.Db.Store.{view, spec_run}
use project_tracker.Db.Store.Refinement.{view-run}
use project_tracker.Db.{finishes, ProjectRow}
use project_tracker.Base.{List}
use project_tracker.Db.Projects.Listed.{get_all-Perm, Selects, IsListed, shown_entry}
use project_tracker.Db.Calls.Invariant.{WellFormed, run-WellFormed}

databases : Unit {0}
unfolding project_tracker.Db.read_rows contains get_all list_entry bytes_eq split read_tokens find
    find_from starts_with string_at int_at to_int at find_field join_rest join_lines find_replace
    apply_patch edit_lines edit_with select_project get_project_id_unlocked select_file upsert_file
    create new_row update remove remove_in_transaction get_file put_file delete_file patch_file
    patch_in_project write_file run step
databases = tt

abbrev app : Project
app = record empty_project { slug = codes "app" }

abbrev history : List Call
history =
    creates app (codes "t") true
    ∷ puts (codes "app") (codes "a.md") (codes "x\n") (codes "t") all_through
    ∷ []

abbrev with_file : Database
with_file = run empty_database history

database_tests :
    (get_file with_file all_through (codes "app") (codes "a.md") ≡ codes "x\n")
    × ((step with_file (creates app (codes "t") true)).1 ≡ false)
    × ((step with_file (removes (codes "app") all_through)).1 ≡ true)
    × ((run with_file (removes (codes "app") all_through ∷ [])).files ≡ [])
unfolding databases
database_tests = (refl, refl, refl, refl)

step-false_example : (step with_file (creates app (codes "t") true)).0 ≡ with_file
unfolding databases
step-false_example = step-false with_file (creates app (codes "t") true) refl

pub empty_database-WellFormed : WellFormed empty_database
empty_database-WellFormed = record { slugs = tt; ids = tt; names = tt; owned = tt }

run-WellFormed_example : WellFormed (run empty_database history)
run-WellFormed_example = run-WellFormed empty_database history empty_database-WellFormed

get_file-patch_file_example :
    apply_patch
      (patch_of (append (codes "y")))
      (get_file with_file all_through (codes "app") (codes "a.md"))
    ≡ some (
        get_file
          (patch_file with_file all_through
            (codes "app")
            (codes "a.md")
            (patch_of (append (codes "y")))
            (codes "u")).0
          all_through
          (codes "app")
          (codes "a.md"))
unfolding databases
get_file-patch_file_example =
    get_file-patch_file with_file (codes "app") (codes "a.md") (patch_of (append (codes "y")))
      (codes "u") refl

view-run_example : view (run empty_database history) ≡ spec_run (view empty_database) history
view-run_example =
    view-run empty_database history empty_database-WellFormed (refl, ((λ k. refl), tt))

-- Rows in the order of their keys, and LIKE as a search for the text between the percent signs.
abbrev pub sql : Sql
sql = record {
  like = λ pattern text. contains text (drop 1 (take (length pattern - 1) pattern));
  by_filename = λ rows. rows;
  by_updated_at = λ rows. rows;
}

pub sql-SqlLaws : SqlLaws sql
sql-SqlLaws = record {
  by_filename_perm = λ rows. mathlib.Core.List.Perm.refl rows;
  by_updated_at_perm = λ rows. mathlib.Core.List.Perm.refl rows;
}

abbrev old : Project
old = record empty_project { slug = codes "old"; status = codes "archived" }

abbrev with_two : Database
with_two = run with_file (creates old (codes "u") true ∷ [])

listing_tests :
    (map (λ p. p.slug) (get_all sql with_two finishes [] [] (pos 0) (pos 0)) ≡ codes "app" ∷ [])
    × (map (λ p. p.slug) (get_all sql with_two finishes (codes "ol") (codes "all") (pos 0) (pos 0))
        ≡ codes "old" ∷ [])
unfolding databases
listing_tests = (refl, refl)

get_all-Perm_example :
    (rows : List ProjectRow) × Selects (IsListed sql [] []) with_two.projects rows
    × Perm (get_all sql with_two finishes [] [] (pos 0) (pos 0)) (map (shown_entry with_two) rows)
get_all-Perm_example = get_all-Perm sql with_two [] [] (pos 0) sql-SqlLaws
