-- ===== src/Models.antt =====
-- include/db/models.h and src/db/models.cpp. An object's fields stand in the order of the source;
-- the program reads them by name only.
use project_tracker.Base.{
  ℕ, ◌≡◌, refl, List, [], ◌∷◌, Option, none, some, Bytes, codes, pos, bytes_eq,
}
use project_tracker.Json.{
  Json, integer, string, array, object, Items, nil, cons, end, field, string_at,
}

pub record FileInfo : Type 0 where
  pub filename : Bytes
  pub size : ℕ
  pub updated_at : Bytes

pub record Project : Type 0 where
  pub id : ℕ
  pub slug : Bytes
  pub name : Bytes
  pub status : Bytes
  pub priority : Bytes
  pub tags : Bytes
  pub description : Bytes
  pub repo_path : Bytes
  pub created_at : Bytes
  pub updated_at : Bytes
  pub file_count : ℕ
  pub files : List FileInfo

-- `Project{}`
abbrev pub empty_project : Project
empty_project = record {
  id = 0;
  slug = [];
  name = [];
  status = [];
  priority = [];
  tags = [];
  description = [];
  repo_path = [];
  created_at = [];
  updated_at = [];
  file_count = 0;
  files = [];
}

unfoldable pub file_to_json : FileInfo → Json
file_to_json f = object (
    field (codes "filename") (string f.filename) (
      field (codes "size") (integer (pos f.size))
        (field (codes "updated_at") (string f.updated_at) end)))

unfoldable pub to_json : Project → Json
to_json p = object (
    field (codes "id") (integer (pos p.id)) (
      field (codes "slug") (string p.slug) (
        field (codes "name") (string p.name) (
          field (codes "status") (string p.status) (
            field (codes "priority") (string p.priority) (
              field (codes "tags") (string p.tags) (
                field (codes "description") (string p.description)
                  (field (codes "file_count") (integer (pos p.file_count)) end))))))))

unfoldable pub files_array : List FileInfo → Items
unfolding file_to_json
files_array [] = nil
files_array (f ∷ fs) = cons (file_to_json f) (files_array fs)

unfoldable pub to_json_full : Project → Json
unfolding files_array
to_json_full p = object (
    field (codes "id") (integer (pos p.id)) (
      field (codes "slug") (string p.slug) (
        field (codes "name") (string p.name) (
          field (codes "status") (string p.status) (
            field (codes "priority") (string p.priority) (
              field (codes "tags") (string p.tags) (
                field (codes "description") (string p.description) (
                  field (codes "repo_path") (string p.repo_path) (
                    field (codes "created_at") (string p.created_at) (
                      field (codes "updated_at") (string p.updated_at)
                        (field (codes "files") (array (files_array p.files)) end)))))))))))

-- `if (j.contains(key) && j[key].is_string()) field = j[key].get<std::string>();`
abbrev pub read_into : Bytes → Option Bytes → Bytes
read_into current none = current
read_into current (some s) = s

unfoldable pub from_json : Json → Project
from_json j = record empty_project {
  slug = read_into [] (string_at (codes "slug") j);
  name = read_into [] (string_at (codes "name") j);
  status = read_into [] (string_at (codes "status") j);
  priority = read_into [] (string_at (codes "priority") j);
  tags = read_into [] (string_at (codes "tags") j);
  description = read_into [] (string_at (codes "description") j);
  repo_path = read_into [] (string_at (codes "repo_path") j);
}

-- Reading the detailed JSON of a project back gives its seven text fields, and nothing else of it.
pub from_json-to_json_full :
    (p : Project)
    → from_json (to_json_full p) ≡ record empty_project {
      slug = p.slug;
      name = p.name;
      status = p.status;
      priority = p.priority;
      tags = p.tags;
      description = p.description;
      repo_path = p.repo_path;
    }
unfolding from_json to_json_full string_at bytes_eq
from_json-to_json_full p = refl
