-- ===== src/Routes/Shown.antt =====
-- The answer to the GET of a project, src/routes/projects.cpp, field by field.
use project_tracker.Base.{ℕ, ◌≡◌, refl, ap, Option, pos, none, some, [], ◌∷◌, Bytes, codes}
use project_tracker.Json.{Json, Items, nil, object, array, string, integer, field, end, string_at}
use project_tracker.Models.{from_json, to_json_full, files_array, read_into}
use project_tracker.Db.{ProjectRow, Database, Sql}
use project_tracker.Db.Projects.{
  or_default, or_current, get_field, select_files, changed_row, detail,
}
use project_tracker.Db.Store.Details.{created}

-- The answer to the GET of a project, with its fields and the JSON of its files.
abbrev pub project_json :
    (id : ℕ)
    → (slug name status priority tags description repo_path created_at updated_at : Bytes)
    → (files : Items) → Json
project_json id slug name status priority tags description repo_path created_at updated_at files =
    object (
      field (codes "id") (integer (pos id)) (
        field (codes "slug") (string slug) (
          field (codes "name") (string name) (
            field (codes "status") (string status) (
              field (codes "priority") (string priority) (
                field (codes "tags") (string tags) (
                  field (codes "description") (string description) (
                    field (codes "repo_path") (string repo_path) (
                      field (codes "created_at") (string created_at) (
                        field (codes "updated_at") (string updated_at)
                          (field (codes "files") (array files) end)))))))))))

-- A text that is given and not empty, or else another one.
abbrev pub given_or : (other : Bytes) → (given : Option Bytes) → Bytes
given_or other none = other
given_or other (some []) = other
given_or other (some (c ∷ s)) = c ∷ s

-- The new project of the body, under the slug.
abbrev pub new_json : (id : ℕ) → (slug : Bytes) → (body : Json) → (now : Bytes) → Json
new_json id slug body now =
    project_json id slug (given_or [] (string_at (codes "name") body))
      (given_or (codes "active") (string_at (codes "status") body))
      (given_or (codes "medium") (string_at (codes "priority") body))
      (given_or [] (string_at (codes "tags") body))
      (given_or [] (string_at (codes "description") body))
      (given_or [] (string_at (codes "repo_path") body)) now now nil

-- A row as it is shown.
abbrev pub row_json : ProjectRow → (files : Items) → Json
row_json row files =
    project_json row.id row.slug row.name row.status row.priority row.tags row.description
      row.repo_path row.created_at row.updated_at files

-- A row with the texts of the body that are not empty in their places.
abbrev pub edited_json : ProjectRow → (body : Json) → (now : Bytes) → (files : Items) → Json
edited_json row body now files =
    project_json row.id row.slug (given_or row.name (string_at (codes "name") body))
      (given_or row.status (string_at (codes "status") body))
      (given_or row.priority (string_at (codes "priority") body))
      (given_or row.tags (string_at (codes "tags") body))
      (given_or row.description (string_at (codes "description") body))
      (given_or row.repo_path (string_at (codes "repo_path") body)) row.created_at now files

read_into-given_or : (o : Option Bytes) → read_into [] o ≡ given_or [] o
read_into-given_or none = refl
read_into-given_or (some []) = refl
read_into-given_or (some (c ∷ s)) = refl

or_default-given_or : (d : Bytes) (o : Option Bytes) → or_default (read_into [] o) d ≡ given_or d o
or_default-given_or d none = refl
or_default-given_or d (some []) = refl
or_default-given_or d (some (c ∷ s)) = refl

or_current-given_or : (old : Bytes) (o : Option Bytes) → or_current o old ≡ given_or old o
or_current-given_or old none = refl
or_current-given_or old (some []) = refl
or_current-given_or old (some (c ∷ s)) = refl

pub to_json_full-created :
    (id : ℕ) (slug : Bytes) (body : Json) (now : Bytes)
    → string_at (codes "slug") body ≡ some slug
    → to_json_full (created id (from_json body) now) ≡ new_json id slug body now
unfolding to_json_full files_array from_json
to_json_full-created id slug body now e = λ i.
    project_json id (ap (read_into []) e i) (read_into-given_or (string_at (codes "name") body) i)
      (or_default-given_or (codes "active") (string_at (codes "status") body) i)
      (or_default-given_or (codes "medium") (string_at (codes "priority") body) i)
      (read_into-given_or (string_at (codes "tags") body) i)
      (read_into-given_or (string_at (codes "description") body) i)
      (read_into-given_or (string_at (codes "repo_path") body) i) now now nil

pub to_json_full-detail :
    (sql : Sql) (db : Database) (row : ProjectRow)
    → to_json_full (detail sql db row) ≡ row_json row (files_array (select_files sql db row.id))
unfolding to_json_full detail
to_json_full-detail sql db row = refl

pub to_json_full-changed_row :
    (sql : Sql) (db : Database) (row : ProjectRow) (body : Json) (now : Bytes)
    → to_json_full (detail sql db (changed_row body now row))
      ≡ edited_json row body now (files_array (select_files sql db row.id))
unfolding to_json_full detail changed_row get_field
to_json_full-changed_row sql db row body now = λ i.
    project_json row.id row.slug (or_current-given_or row.name (string_at (codes "name") body) i)
      (or_current-given_or row.status (string_at (codes "status") body) i)
      (or_current-given_or row.priority (string_at (codes "priority") body) i)
      (or_current-given_or row.tags (string_at (codes "tags") body) i)
      (or_current-given_or row.description (string_at (codes "description") body) i)
      (or_current-given_or row.repo_path (string_at (codes "repo_path") body) i) row.created_at now
      (files_array (select_files sql db row.id))
