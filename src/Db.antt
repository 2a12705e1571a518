-- ===== src/Db.antt =====
-- src/db/database.cpp: the two tables, and what each SQL statement of the source does to them.
-- A row's times are texts, as CURRENT_TIMESTAMP gives them; `now` is that text. The row ids of
-- `files` are left out, since nothing reads them. Each try block of a method has a Boolean that
-- says whether SQLite goes through with it or throws; a lookup that throws gives no id. A listing
-- keeps the rows that it has read before a throw.
pub mod Projects
pub mod Files
pub mod Calls
pub mod Store
use mathlib.Core.List.{Perm}
use project_tracker.Base.{
  ℕ, suc, ◌+◌, Bool, true, false, not, ◌&&◌, ◌||◌, Option, none, some, List, [], ◌∷◌, ◌++◌, ltb,
  ◌==◌, if◌then◌else◌, length, is_empty, any, keep, take, Bytes, bytes_eq, codes,
}

pub record ProjectRow : Type 0 where
  pub id : ℕ
  pub slug : Bytes
  pub name : Bytes
  pub status : Bytes
  pub priority : Bytes
  pub tags : Bytes
  pub description : Bytes
  pub repo_path : Bytes
  pub created_at : Bytes
  pub updated_at : Bytes

-- `content` is `none` for NULL.
pub record FileRow : Type 0 where
  pub project_id : ℕ
  pub filename : Bytes
  pub content : Option Bytes
  pub size : ℕ
  pub created_at : Bytes
  pub updated_at : Bytes

-- `next_id` is what AUTOINCREMENT gives the next project.
pub record Database : Type 0 where
  pub projects : List ProjectRow
  pub files : List FileRow
  pub next_id : ℕ

-- The schema's tables, when they are new.
abbrev pub empty_database : Database
empty_database = record { projects = []; files = []; next_id = 1 }

-- What the queries ask of SQLite beyond the tables: the operator LIKE, of a pattern and a text, and
-- the two orders, ORDER BY filename and ORDER BY updated_at DESC.
pub record Sql : Type 0 where
  pub like : Bytes → Bytes → Bool
  pub by_filename : List FileRow → List FileRow
  pub by_updated_at : List ProjectRow → List ProjectRow

-- An order by a column returns the same rows.
pub record SqlLaws (sql : Sql) : Type 0 where
  pub by_filename_perm : (rows : List FileRow) → Perm (sql.by_filename rows) rows
  pub by_updated_at_perm : (rows : List ProjectRow) → Perm (sql.by_updated_at rows) rows

-- Whether SQLite goes through with the rows of a listing, or throws behind the first of them.
pub data Reading : Type 0 where
  finishes : Reading
  throws_after : (rows : ℕ) → Reading

-- The rows that the loop has taken in.
unfoldable pub read_rows : {A : Type 0} → Reading → List A → List A
read_rows finishes rows = rows
read_rows (throws_after n) rows = take n rows

-- SELECT … FROM projects WHERE slug = ?
unfoldable pub select_project : Bytes → List ProjectRow → Option ProjectRow
select_project slug [] = none
select_project slug (p ∷ ps) = if bytes_eq p.slug slug then some p else select_project slug ps

abbrev pub id_of : Option ProjectRow → Option ℕ
id_of none = none
id_of (some p) = some p.id

-- `none` stands for the result -1.
unfoldable pub get_project_id_unlocked : Database → (goes_through : Bool) → Bytes → Option ℕ
get_project_id_unlocked db goes_through slug =
    if goes_through then id_of (select_project slug db.projects) else none

-- WHERE project_id = ? AND filename = ?
abbrev pub is_file : ℕ → Bytes → FileRow → Bool
is_file id filename f = (f.project_id == id) && bytes_eq f.filename filename

unfoldable pub select_file : ℕ → Bytes → List FileRow → Option FileRow
select_file id filename [] = none
select_file id filename (f ∷ fs) =
    if is_file id filename f then some f else select_file id filename fs

-- INSERT INTO files … ON CONFLICT(project_id, filename) DO UPDATE …
unfoldable pub upsert_file : ℕ → Bytes → Bytes → (now : Bytes) → List FileRow → List FileRow
upsert_file id filename content now [] =
    record {
      project_id = id;
      filename = filename;
      content = some content;
      size = length content;
      created_at = now;
      updated_at = now;
    }
    ∷ []
upsert_file id filename content now (f ∷ fs) =
    if is_file id filename f
    then record f { content = some content; size = length content; updated_at = now } ∷ fs
    else f ∷ upsert_file id filename content now fs

-- DELETE FROM files WHERE project_id = ? AND filename = ?
abbrev pub delete_file_rows : ℕ → Bytes → List FileRow → List FileRow
delete_file_rows id filename = keep (λ f. not (is_file id filename f))

-- DELETE FROM files WHERE project_id = ?
abbrev pub delete_files_of : ℕ → List FileRow → List FileRow
delete_files_of id = keep (λ f. not (f.project_id == id))

-- DELETE FROM projects WHERE id = ?
abbrev pub delete_project_row : ℕ → List ProjectRow → List ProjectRow
delete_project_row id = keep (λ p. not (p.id == id))

-- UPDATE projects SET … WHERE slug = ?
unfoldable pub update_project_row :
    Bytes → (ProjectRow → ProjectRow) → List ProjectRow → List ProjectRow
update_project_row slug change [] = []
update_project_row slug change (p ∷ ps) =
    (if bytes_eq p.slug slug then change p else p) ∷ update_project_row slug change ps
