-- ===== src/Db/Projects.antt =====
-- The methods of `ProjectDB` on projects, src/db/database.cpp. Each holds the lock for its whole
-- run, exclusive where it writes, so that a call is one step from a database to the next. Stored
-- texts are taken to hold no NUL byte, which the handlers refuse: `getText` reads up to one.
pub mod Tables
pub mod Listing
pub mod Listed
use project_tracker.Base.{
  ℕ, zero, suc, ◌+◌, Bool, true, false, not, ◌&&◌, ◌||◌, Option, none, some, List, [], ◌∷◌, ◌++◌,
  map, ltb, ◌==◌, if◌then◌else◌, length, is_empty, any, keep, take, drop, Bytes, bytes_eq, codes, ℤ,
  pos, negsuc,
}
use project_tracker.Json.{Json, string_at}
use project_tracker.Models.{FileInfo, Project, empty_project}
use project_tracker.Db.{
  Reading, read_rows, ProjectRow, FileRow, Database, Sql, select_project, get_project_id_unlocked,
  delete_files_of, delete_project_row, update_project_row,
}

abbrev pub or_default : Bytes → Bytes → Bytes
or_default s d = if is_empty s then d else s

-- The row that INSERT adds, with the defaults of the schema for the times.
unfoldable pub new_row : ℕ → Project → (now : Bytes) → ProjectRow
new_row id p now = record {
  id = id;
  slug = p.slug;
  name = p.name;
  status = or_default p.status (codes "active");
  priority = or_default p.priority (codes "medium");
  tags = p.tags;
  description = p.description;
  repo_path = p.repo_path;
  created_at = now;
  updated_at = now;
}

-- The constraint UNIQUE on the slug makes the statement throw.
unfoldable pub create : Database → (goes_through : Bool) → Project → (now : Bytes) → Database × Bool
create db goes_through p now = elim (select_project p.slug db.projects) [
  | some taken ↦ (db, false)
  | none ↦
      if goes_through
      then (
        record db {
          projects = db.projects ++ new_row db.next_id p now ∷ [];
          next_id = suc db.next_id;
        },
        true,
      )
      else (db, false)
]

abbrev pub or_current : Option Bytes → Bytes → Bytes
or_current none current = current
or_current (some val) current = if is_empty val then current else val

-- the lambda `getField`
unfoldable pub get_field : Json → Bytes → (current : Bytes) → Bytes
get_field fields key current = or_current (string_at key fields) current

unfoldable pub changed_row : Json → (now : Bytes) → ProjectRow → ProjectRow
changed_row fields now p = record p {
  name = get_field fields (codes "name") p.name;
  status = get_field fields (codes "status") p.status;
  priority = get_field fields (codes "priority") p.priority;
  tags = get_field fields (codes "tags") p.tags;
  description = get_field fields (codes "description") p.description;
  repo_path = get_field fields (codes "repo_path") p.repo_path;
  updated_at = now;
}

unfoldable pub update :
    Database → (goes_through : Bool) → Bytes → Json → (now : Bytes) → Database × Bool
update db goes_through slug fields now = elim (select_project slug db.projects) [
  | none ↦ (db, false)
  | some row ↦
      if goes_through
      then (
        record db { projects = update_project_row slug (changed_row fields now) db.projects },
        true,
      )
      else (db, false)
]

-- `goes_through 1` is the first DELETE, `goes_through 2` the second and the commit. A statement
-- that throws leaves the transaction to be rolled back.
unfoldable pub remove_in_transaction : Database → (goes_through : ℕ → Bool) → ℕ → Database × Bool
remove_in_transaction db goes_through id =
    let without_files = record db { files = delete_files_of id db.files } in
    if not (goes_through 1) then (db, false) else if not (goes_through 2) then (db, false) else (
      record without_files { projects = delete_project_row id without_files.projects },
      any (λ p. p.id == id) without_files.projects,
    )

unfoldable pub remove : Database → (goes_through : ℕ → Bool) → Bytes → Database × Bool
remove db goes_through slug = elim (get_project_id_unlocked db (goes_through 0) slug) [
  | none ↦ (db, false)
  | some id ↦ remove_in_transaction db goes_through id
]

abbrev pub file_info : FileRow → FileInfo
file_info f = record { filename = f.filename; size = f.size; updated_at = f.updated_at }

abbrev pub file_rows : Database → ℕ → List FileRow
file_rows db id = keep (λ f. f.project_id == id) db.files

module _ (sql : Sql) where
  -- SELECT … FROM files WHERE project_id = ? ORDER BY filename
  unfoldable pub select_files : Database → ℕ → List FileInfo
  select_files db id = map file_info (sql.by_filename (file_rows db id))

  unfoldable pub detail : Database → ProjectRow → Project
  detail db p =
      let files = select_files db p.id in
      record {
        id = p.id;
        slug = p.slug;
        name = p.name;
        status = p.status;
        priority = p.priority;
        tags = p.tags;
        description = p.description;
        repo_path = p.repo_path;
        created_at = p.created_at;
        updated_at = p.updated_at;
        file_count = length files;
        files = files;
      }

  unfoldable pub get_by_slug : Database → (goes_through : Bool) → Bytes → Project
  get_by_slug db goes_through slug =
      if goes_through
      then elim (select_project slug db.projects) [ none ↦ empty_project | some p ↦ detail db p ]
      else empty_project

  -- The conditions that the text of the query gets from `search` and `status`.
  abbrev pub matches_search : Bytes → ProjectRow → Bool
  matches_search search p =
      if is_empty search
      then true
      else let term = b'%' ∷ (search ++ b'%' ∷ []) in
        sql.like term p.slug
        || sql.like term p.name
        || sql.like term p.tags
        || sql.like term p.description

  abbrev pub matches_status : Bytes → ProjectRow → Bool
  matches_status status p =
      if not (is_empty status) && not (bytes_eq status (codes "all"))
      then bytes_eq p.status status
      else if not (bytes_eq status (codes "all"))
      then not (bytes_eq p.status (codes "archived"))
      else true

  -- LIMIT ? OFFSET ?, where a negative offset counts as 0
  abbrev pub limited : ℤ → ℤ → List ProjectRow → List ProjectRow
  limited (negsuc n) offset rows = rows
  limited (pos n) offset rows = if n == 0 then rows else take n (drop (skipped offset) rows)
    where
      skipped : ℤ → ℕ
      skipped (pos m) = m
      skipped (negsuc m) = 0

  unfoldable pub list_entry : Database → ProjectRow → Project
  list_entry db p = record {
    id = p.id;
    slug = p.slug;
    name = p.name;
    status = p.status;
    priority = p.priority;
    tags = p.tags;
    description = p.description;
    repo_path = p.repo_path;
    created_at = p.created_at;
    updated_at = p.updated_at;
    file_count = length (file_rows db p.id);
    files = [];
  }

  unfoldable pub get_all :
      Database → Reading → (search status : Bytes) → (limit offset : ℤ) → List Project
  get_all db reading search status limit offset = read_rows reading (
      map (list_entry db) (
        limited limit offset (
          sql.by_updated_at
            (keep (λ p. matches_search search p && matches_status status p) db.projects))))
