-- ===== src/Tests/Browsers.antt =====
-- The pages of the web interface on a server.
use project_tracker.Base.{
  ◌≡◌, ◌⊎◌, refl, arith, true, false, some, none, Option, [], Bytes, codes, bytes_eq, is_empty,
}
use project_tracker.Text.{contains, find, find_from, starts_with}
use project_tracker.Json.{string_at, at, find_field}
use project_tracker.Models.{to_json_full}
use project_tracker.Sanitizer.{is_valid_slug, contains_null_bytes}
use project_tracker.Db.{
  ProjectRow, select_project, get_project_id_unlocked, select_file, upsert_file,
}
use project_tracker.Db.Projects.{create, new_row, changed_row, detail}
use project_tracker.Db.Files.{get_file, put_file, write_file}
use project_tracker.Db.Files.Laws.{all_through}
use project_tracker.Http.{get, json_error}
use project_tracker.Routes.{Server}
use project_tracker.Routes.FileRoutes.{read_route, file_answer, is_bad_name}
use project_tracker.Browser.{api}
use project_tracker.Browser.Editor.{
  Editor, puts, asks_back, create_file, create_in, create_named, do_create_file, resolve_conflict,
  heading, js_trim, trim_start, is_js_space, name_parts, last_index_of, free_name, without_first,
}
use project_tracker.Browser.Editor.Spares.{asked, Spares, create_file-Spares}
use project_tracker.Browser.Forms.{Controls, ControlsLaws, edit, save_body}
use project_tracker.Browser.Forms.Edits.{changed_row-edit}
use project_tracker.Tests.Web.{lib, asks, with_key, server, print}
use project_tracker.Tests.Databases.{sql}
use mathlib.Core.List.{mem-cons_self}
use project_tracker.Base.{pos, ◌≢◌, ◌∷◌}
use project_tracker.Models.{Project, empty_project}
use project_tracker.Db.{Database, finishes, throws_after}
use project_tracker.Db.Projects.{update, get_all, get_field, list_entry}
use project_tracker.Db.{update_project_row}
use project_tracker.Browser.Archive.{archive_body}
use project_tracker.Browser.Archive.Hidden.{get_all-archive_body}
use project_tracker.Tests.Databases.{sql-SqlLaws}

browsers : Unit {0}
unfolding bytes_eq contains find find_from starts_with string_at at find_field is_valid_slug
    contains_null_bytes select_project get_project_id_unlocked select_file upsert_file create
    new_row changed_row get_file put_file write_file json_error read_route file_answer is_bad_name
    api create_file create_in create_named do_create_file resolve_conflict js_trim trim_start
    is_js_space name_parts last_index_of free_name without_first
browsers = tt

-- A server with the file "a.md".
abbrev with_file : Server
with_file = record server {
  db = (put_file server.db all_through (codes "app") (codes "a.md") (codes "x") (codes "t")).0;
}

abbrev editor : Editor
editor = record { current_slug = some (codes "app"); current_file = none; pending_file_name = none }

-- The names of the tests need no encoding.
abbrev as_typed : Bytes → Bytes
as_typed name = name

abbrev gets : Bytes → Option project_tracker.Http.Response
gets = asked lib print as_typed with_file (asks get with_key []) (codes "app")

-- The name "a" is taken, and its copy gets the number 2, which this printer writes as "n".
browser_tests :
    ((create_file gets editor (codes " a ")).1 ≡ asks_back (codes "a.md"))
    × ((resolve_conflict print gets (create_file gets editor (codes " a ")).0 true).1
        ≡ puts (codes "a-n.md") (codes "# a-n\n"))
unfolding browsers heading
browser_tests = (refl, refl)

create_file-Spares_example :
    ((is_empty (get_file with_file.db all_through (codes "app") (codes "a.md")) ≡ true)
      × ((create_file gets editor (codes "a")).1 ≡ puts (codes "a.md") (heading (codes "a.md"))))
    ⊎ ((is_empty (get_file with_file.db all_through (codes "app") (codes "a.md")) ≡ false)
        × ((create_file gets editor (codes "a")).1 ≡ asks_back (codes "a.md"))
        × Spares lib print as_typed with_file
            (asks get with_key [])
            (codes "app")
            (codes "a.md")
            (resolve_conflict print gets (create_file gets editor (codes "a")).0 true).1)
unfolding browsers
create_file-Spares_example =
    create_file-Spares lib print as_typed with_file (asks get with_key []) (codes "app") editor
      (codes "a") refl refl refl (refl, refl) (λ k low high. (refl, refl))

-- Controls that keep every text.
abbrev controls : Controls
controls = record { text_value = λ s. s; choice_value = λ options s. s }

controls-ControlsLaws : ControlsLaws controls
controls-ControlsLaws = record { keeps_text = λ s lf cr. refl; keeps_choice = λ options s h. refl }

abbrev app_row : ProjectRow
app_row = record {
  id = 1;
  slug = codes "app";
  name = codes "App";
  status = codes "paused";
  priority = codes "low";
  tags = [];
  description = codes "d";
  repo_path = [];
  created_at = codes "t";
  updated_at = codes "t";
}

changed_row-edit_example :
    changed_row
      (save_body (edit controls (to_json_full (detail sql with_file.db app_row))))
      (codes "u")
      app_row
    ≡ record app_row { updated_at = codes "u" }
unfolding browsers
changed_row-edit_example =
    changed_row-edit controls controls-ControlsLaws sql with_file.db app_row (codes "u") refl refl
      (omega arith, omega arith) (tt, tt) (omega arith, omega arith) (tt, tt)

-- The projects "app" and "two".
abbrev two_projects : Database
two_projects = (create server.db true (record empty_project { slug = codes "two" }) (codes "t")).0

-- The project "app" as the list shows it, and the row of "two".
abbrev listed_app : Project
listed_app = record empty_project {
  id = 1;
  slug = codes "app";
  status = codes "active";
  priority = codes "medium";
  created_at = codes "t";
  updated_at = codes "t";
}

abbrev row_two : ProjectRow
row_two = new_row 2 (record empty_project { slug = codes "two" }) (codes "t")

archived_test :
    get_all sql
      (update two_projects true (codes "two") (archive_body row_two.status) (codes "u")).0
      finishes
      []
      []
      (pos 0)
      (pos 0)
    ≡ listed_app ∷ []
unfolding browsers project_tracker.Db.read_rows update get_all get_field list_entry archive_body
    update_project_row
archived_test = refl

get_all-archive_body_example : codes "app" ≢ codes "two"
unfolding browsers project_tracker.Db.read_rows update get_all get_field list_entry archive_body
    update_project_row
get_all-archive_body_example =
    get_all-archive_body sql two_projects (codes "two") (codes "u") [] row_two (throws_after 1)
      sql-SqlLaws refl (λ e. cc) listed_app mem-cons_self
