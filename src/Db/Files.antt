-- ===== src/Db/Files.antt =====
-- The methods of `ProjectDB` on files, src/db/database.cpp. `goes_through 0` is the lookup of the
-- project, `goes_through 1` and `2` are the statements behind it.
pub mod Laws
pub mod Deletes
pub mod Tables
use project_tracker.Base.{
  ℕ, Bool, true, false, Option, none, some, List, [], any, if◌then◌else◌, is_empty, Bytes, not,
}
use project_tracker.Json.{Json}
use project_tracker.Models.{FileInfo}
use project_tracker.Patch.{apply_patch}
use project_tracker.Db.{
  Reading, read_rows, FileRow, Database, Sql, get_project_id_unlocked, is_file, select_file,
  upsert_file, delete_file_rows,
}
use project_tracker.Db.Projects.{select_files}

unfoldable pub list_files : Sql → Database → (goes_through : Bool) → Reading → Bytes → List FileInfo
list_files sql db goes_through reading slug = elim (get_project_id_unlocked db goes_through slug) [
  | none ↦ []
  | some id ↦ read_rows reading (select_files sql db id)
]

abbrev pub content_of : Option FileRow → Bytes
content_of none = []
content_of (some f) = elim f.content [ none ↦ [] | some c ↦ c ]

-- The bytes of a row, where there is one.
abbrev pub contents : Option FileRow → Option Bytes
contents none = none
contents (some f) = some (content_of (some f))

-- The bytes of the file; empty if there is none, and also if the read throws.
unfoldable pub get_file : Database → (goes_through : ℕ → Bool) → (slug filename : Bytes) → Bytes
get_file db goes_through slug filename = elim (get_project_id_unlocked db (goes_through 0) slug) [
  | none ↦ []
  | some id ↦ if goes_through 1 then content_of (select_file id filename db.files) else []
]

unfoldable pub write_file : Database → ℕ → (filename content now : Bytes) → Database
write_file db id filename content now = record db {
  files = upsert_file id filename content now db.files;
}

unfoldable pub put_file :
    Database → (goes_through : ℕ → Bool) → (slug filename content now : Bytes) → Database × Bool
put_file db goes_through slug filename content now =
    elim (get_project_id_unlocked db (goes_through 0) slug) [
      | none ↦ (db, false)
      | some id ↦
          if goes_through 1 then (write_file db id filename content now, true) else (db, false)
    ]

unfoldable pub delete_file :
    Database → (goes_through : ℕ → Bool) → (slug filename : Bytes) → Database × Bool
delete_file db goes_through slug filename =
    elim (get_project_id_unlocked db (goes_through 0) slug) [
      | none ↦ (db, false)
      | some id ↦
          if goes_through 1
          then (
            record db { files = delete_file_rows id filename db.files },
            any (is_file id filename) db.files,
          )
          else (db, false)
    ]

abbrev pub save_patched :
    Database → Bool → ℕ → (filename now : Bytes) → Option Bytes → Database × Bool
save_patched db goes_through id filename now none = (db, false)
save_patched db goes_through id filename now (some result) =
    if goes_through then (write_file db id filename result now, true) else (db, false)

-- The whole read, edit and write of one file, under the exclusive lock.
unfoldable pub patch_in_project :
    Database
    → (goes_through : ℕ → Bool) → ℕ
    → (filename : Bytes) → Json
    → (now : Bytes) → Database × Bool
patch_in_project db goes_through id filename patch now =
    let content = content_of (select_file id filename db.files) in
    if not (goes_through 1)
    then (db, false)
    else if is_empty content
    then (db, false)
    else save_patched db (goes_through 2) id filename now (apply_patch patch content)

unfoldable pub patch_file :
    Database
    → (goes_through : ℕ → Bool) → (slug filename : Bytes) → Json
    → (now : Bytes) → Database × Bool
patch_file db goes_through slug filename patch now =
    elim (get_project_id_unlocked db (goes_through 0) slug) [
      | none ↦ (db, false)
      | some id ↦ patch_in_project db goes_through id filename patch now
    ]
