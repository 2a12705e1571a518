-- ===== src/Db/Files/Deletes.antt =====
-- What is read back after a file is deleted.
use project_tracker.Base.{ℕ, ◌≡◌, refl, ◌∙◌, true, none, some, [], Bytes, Option-cases, inl, inr}
use project_tracker.Db.{Database, get_project_id_unlocked, delete_file_rows}
use project_tracker.Db.Files.Tables.{select-delete_self}
use project_tracker.Db.Files.{get_file, delete_file}
use project_tracker.Db.Files.Laws.{all_through, get_file_lem}

without_file : Database → ℕ → Bytes → Database
without_file db id name = record db { files = delete_file_rows id name db.files }

id_without_file :
    (db : Database) (slug : Bytes) (id : ℕ) (name : Bytes)
    → get_project_id_unlocked (without_file db id name) true slug
      ≡ get_project_id_unlocked db true slug
unfolding without_file get_project_id_unlocked
id_without_file db slug id name = refl

delete_file_lem :
    (db : Database) (slug name : Bytes) (id : ℕ)
    → get_project_id_unlocked db true slug ≡ some id
    → (delete_file db all_through slug name).0 ≡ without_file db id name
unfolding delete_file without_file
delete_file_lem db slug name id e = rw (e, delete_file)

get_file_without :
    (db : Database) (slug name : Bytes) (id : ℕ)
    → get_project_id_unlocked db true slug ≡ some id
    → get_file (without_file db id name) all_through slug name ≡ []
unfolding without_file
get_file_without db slug name id e = rw (
  get_file_lem (without_file db id name) slug name id (id_without_file db slug id name ∙ e),
  select-delete_self id name db.files,
)

delete_file-none :
    (db : Database) (slug name : Bytes)
    → get_project_id_unlocked db true slug ≡ none
    → (delete_file db all_through slug name).0 ≡ db
unfolding delete_file
delete_file-none db slug name e = rw (e, delete_file)

get_file-none :
    (db : Database) (slug name : Bytes)
    → get_project_id_unlocked db true slug ≡ none
    → get_file db all_through slug name ≡ []
unfolding get_file
get_file-none db slug name e = rw (e, get_file)

-- A deleted file reads as no bytes, which is what a file that is not there reads as.
pub get_file-delete_file :
    (db : Database) (slug name : Bytes)
    → get_file (delete_file db all_through slug name).0 all_through slug name ≡ []
get_file-delete_file db slug name = elim (Option-cases (get_project_id_unlocked db true slug)) [
  | inl e ↦ rw (delete_file-none db slug name e, get_file-none db slug name e)
  | inr (id, e) ↦ rw (delete_file_lem db slug name id e, get_file_without db slug name id e)
]
