-- ===== src/Tests/Lifecycles.antt =====
-- Projects from their creation to their removal.
use project_tracker.Base.{◌≡◌, refl, true, some, [], ◌∷◌, codes, bytes_eq}
use project_tracker.Json.{Json, Items, object, field, string, end, string_at, at, find_field}
use project_tracker.Models.{from_json, to_json_full}
use project_tracker.Text.{contains, find, find_from, starts_with}
use project_tracker.Sanitizer.{
  contains_null_bytes, contains_control_chars, is_valid_slug, is_clean_string, is_valid_status,
  is_valid_priority,
}
use project_tracker.Auth.{
  init, is_authorized, validate_api_key, constant_time_compare, compare_from, extract_session_token,
}
use project_tracker.Db.{ProjectRow, select_project, get_project_id_unlocked}
use project_tracker.Db.Projects.{
  create, new_row, update, remove, remove_in_transaction, changed_row,
}
use project_tracker.Db.Files.Laws.{all_through}
use project_tracker.Db.Calls.{run, step, creates}
use project_tracker.Db.Calls.Invariant.{WellFormed, run-WellFormed}
use project_tracker.Http.{post, put, get, delete, json_error, json_success}
use project_tracker.Routes.{JsonText, authorized}
use project_tracker.Routes.ProjectRoutes.{
  post_project, put_project, delete_project, get_project, create_from, update_from, field_error,
  unclean_field,
}
use project_tracker.Routes.FileRoutes.{read_route, is_bad_name}
use project_tracker.Routes.Shown.{new_json, row_json, edited_json}
use project_tracker.Routes.Lifecycle.{
  shows, get_project-post_project, get_project-put_project, get_project-delete_project,
}
use project_tracker.Tests.Databases.{sql, sql-SqlLaws, empty_database-WellFormed}
use project_tracker.Tests.Web.{asks, with_key, server, print}
use project_tracker.Base.{List, ℕ, Bytes}
use project_tracker.Routes.Writes.{Write, posts, puts}
use project_tracker.Routes.Writes.Decent.{AreTidy}
use project_tracker.Routes.Writes.Tidy.{run-AreTidy}

lifecycles : Unit {0}
unfolding bytes_eq contains find find_from starts_with contains_null_bytes contains_control_chars
    string_at at find_field from_json is_valid_slug is_clean_string is_valid_status
    is_valid_priority init is_authorized validate_api_key constant_time_compare compare_from
    extract_session_token select_project get_project_id_unlocked create new_row update remove
    remove_in_transaction changed_row run step authorized post_project put_project delete_project
    create_from update_from field_error unclean_field is_bad_name json_error json_success
lifecycles = tt

abbrev named : Json
named =
    object (
      field (codes "slug") (string (codes "new")) (field (codes "name") (string (codes "New")) end))

-- A parser that reads the same object from every text.
abbrev reads_named : JsonText
reads_named = record { parse = λ text. some named; dump = λ j. codes "{}" }

server-WellFormed : WellFormed server.db
unfolding lifecycles
server-WellFormed =
    run-WellFormed project_tracker.Db.empty_database
      (creates (record project_tracker.Models.empty_project { slug = codes "app" }) (codes "t") true
        ∷ [])
      empty_database-WellFormed

get_project-post_project_example :
    get_project reads_named sql
      (post_project reads_named server (asks post with_key (codes "{}")) 0 (codes "u") true).0
      (codes "new")
      true
    ≡ shows reads_named (new_json 2 (codes "new") named (codes "u"))
unfolding lifecycles
get_project-post_project_example =
    get_project-post_project reads_named sql server (asks post with_key (codes "{}")) named
      (codes "new") 0 (codes "u") true sql-SqlLaws server-WellFormed refl refl refl

get_project-put_project_example :
    (row : ProjectRow) × (files : Items) × (select_project (codes "app") server.db.projects
      ≡ some row)
    × (get_project reads_named sql server (codes "app") true
        ≡ shows reads_named (row_json row files))
    × (get_project reads_named sql
          (put_project reads_named server
            (asks put with_key (codes "{}"))
            (codes "app")
            0
            (codes "u")
            true).0
          (codes "app")
          true
        ≡ shows reads_named (edited_json row named (codes "u") files))
unfolding lifecycles
get_project-put_project_example =
    get_project-put_project reads_named sql server (asks put with_key (codes "{}")) named
      (codes "app") 0 (codes "u") true sql-SqlLaws server-WellFormed refl refl

get_project-delete_project_example :
    (get_project reads_named sql
        (delete_project reads_named server (asks delete with_key []) (codes "app") 0 all_through).0
        (codes "app")
        true
      ≡ json_error reads_named.dump 404 (codes "not found"))
    × (read_route reads_named print
          (delete_project reads_named server
            (asks delete with_key [])
            (codes "app")
            0
            all_through).0
          (asks get with_key [])
          (codes "app")
          (codes "a.md")
          all_through
        ≡ json_error reads_named.dump 404 (codes "file not found"))
unfolding lifecycles
get_project-delete_project_example =
    get_project-delete_project reads_named sql print server (asks delete with_key [])
      (asks get with_key []) (codes "app") (codes "a.md") 0 all_through all_through
      server-WellFormed refl refl

server-AreTidy : AreTidy server.db
unfolding lifecycles
server-AreTidy = (
  record {
    status = refl;
    priority = refl;
    name = refl;
    tags = refl;
    description = refl;
    repo_path = refl;
  },
  tt,
)

-- A creation, and an update of the project that was there.
abbrev two_writes : List (Write × ℕ × Bytes)
two_writes =
    (posts (asks post with_key (codes "{}")) true, 0, codes "u")
    ∷ (puts (asks put with_key (codes "{}")) (codes "app") true, 0, codes "v")
    ∷ []

run-AreTidy_example : AreTidy (project_tracker.Routes.Writes.run reads_named server two_writes).db
run-AreTidy_example = run-AreTidy reads_named server two_writes server-AreTidy
