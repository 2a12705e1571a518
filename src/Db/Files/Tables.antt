-- ===== src/Db/Files/Tables.antt =====
-- Facts on the table of files.
use project_tracker.Base.{
  ℕ, ◌≡◌, refl, Bool, true, false, ◌&&◌, bytes_eq, none, some, List, [], ◌∷◌, ◌++◌, arith, any,
  keep, All, bytes_eq_refl, Bytes, bytes_eq_iff, ◌==◌,
}
use project_tracker.Db.{
  ProjectRow, FileRow, is_file, select_file, upsert_file, delete_files_of, delete_file_rows,
  delete_project_row,
}
use project_tracker.Db.Files.{contents}
use project_tracker.Db.Projects.Tables.{any-append, any-delete_other}

-- No two files of a project have one name.
abbrev pub FilesDistinct : List FileRow → Type 0
FilesDistinct [] = Unit
FilesDistinct (f ∷ fs) = (select_file f.project_id f.filename fs ≡ none) × FilesDistinct fs

-- The file belongs to a project of the table.
abbrev pub IsOwned : List ProjectRow → FileRow → Type 0
IsOwned ps f = any (λ p. p.id == f.project_id) ps ≡ true

pub select-upsert_none :
    (id id' : ℕ) (name name' content now : Bytes) (fs : List FileRow)
    → is_file id' name' (record {
      project_id = id;
      filename = name;
      content = none;
      size = 0;
      created_at = now;
      updated_at = now;
    })
      ≡ false
    → select_file id' name' fs ≡ none
    → select_file id' name' (upsert_file id name content now fs) ≡ none
unfolding select_file upsert_file
select-upsert_none id id' name name' content now [] n e = ground arith
select-upsert_none id id' name name' content now (f ∷ fs) n e =
    ground (arith, select-upsert_none id id' name name' content now fs n)

pub FilesDistinct-upsert :
    (id : ℕ) (name content now : Bytes) (fs : List FileRow)
    → FilesDistinct fs
    → FilesDistinct (upsert_file id name content now fs)
unfolding upsert_file select_file
FilesDistinct-upsert id name content now [] h = (refl, tt)
FilesDistinct-upsert id name content now (f ∷ fs) (h, hs) = ground (
  arith,
  FilesDistinct-upsert id name content now fs hs,
  select-upsert_none id f.project_id name f.filename content now fs,
  bytes_eq_iff f.filename name,
  bytes_eq_iff name f.filename,
  h,
)

pub select-keep-none_file :
    (t : FileRow → Bool) (id : ℕ) (name : Bytes) (fs : List FileRow)
    → select_file id name fs ≡ none
    → select_file id name (keep t fs) ≡ none
unfolding select_file
select-keep-none_file t id name [] e = refl
select-keep-none_file t id name (f ∷ fs) e = ground (arith, select-keep-none_file t id name fs)

pub FilesDistinct-keep :
    (t : FileRow → Bool) (fs : List FileRow) → FilesDistinct fs → FilesDistinct (keep t fs)
FilesDistinct-keep t [] h = tt
FilesDistinct-keep t (f ∷ fs) (h, hs) =
    ground (arith, select-keep-none_file t f.project_id f.filename fs h, FilesDistinct-keep t fs hs)

pub upsert-IsOwned :
    (ps : List ProjectRow) (id : ℕ) (name content now : Bytes) (fs : List FileRow)
    → any (λ p. p.id == id) ps ≡ true
    → All (IsOwned ps) fs
    → All (IsOwned ps) (upsert_file id name content now fs)
unfolding upsert_file
upsert-IsOwned ps id name content now [] o h = (o, tt)
upsert-IsOwned ps id name content now (f ∷ fs) o (k, h) =
    ground (arith, upsert-IsOwned ps id name content now fs o h)

pub IsOwned-append :
    (ps : List ProjectRow) (q : ProjectRow) (fs : List FileRow)
    → All (IsOwned ps) fs
    → All (IsOwned (ps ++ q ∷ [])) fs
IsOwned-append ps q [] h = tt
IsOwned-append ps q (f ∷ fs) (k, h) =
    (any-append (λ p. p.id == f.project_id) ps q k, IsOwned-append ps q fs h)

-- The files that are left when a project and its files are deleted.
pub IsOwned-delete :
    (ps : List ProjectRow) (id : ℕ) (fs : List FileRow)
    → All (IsOwned ps) fs
    → All (IsOwned (delete_project_row id ps)) (delete_files_of id fs)
IsOwned-delete ps id [] h = tt
IsOwned-delete ps id (f ∷ fs) (k, h) =
    ground (arith, IsOwned-delete ps id fs h, any-delete_other id f.project_id ps)

-- What a select gives after a write.
pub select-upsert_self :
    (id : ℕ) (name content now : Bytes) (fs : List FileRow)
    → contents (select_file id name (upsert_file id name content now fs)) ≡ some content
unfolding select_file upsert_file
select-upsert_self id name content now [] = ground (arith, bytes_eq_refl name)
select-upsert_self id name content now (f ∷ fs) =
    ground (arith, bytes_eq_refl name, select-upsert_self id name content now fs)

pub select-upsert_other :
    (id id' : ℕ) (name name' content now : Bytes) (fs : List FileRow)
    → ((id == id') && bytes_eq name name') ≡ false
    → select_file id' name' (upsert_file id name content now fs) ≡ select_file id' name' fs
unfolding select_file upsert_file
select-upsert_other id id' name name' content now [] n = ground arith
select-upsert_other id id' name name' content now (f ∷ fs) n = ground (
  arith,
  select-upsert_other id id' name name' content now fs n,
  bytes_eq_iff f.filename name,
  bytes_eq_iff f.filename name',
  bytes_eq_iff name name',
)

pub select-delete_self :
    (id : ℕ) (name : Bytes) (fs : List FileRow)
    → select_file id name (delete_file_rows id name fs) ≡ none
unfolding select_file
select-delete_self id name [] = refl
select-delete_self id name (f ∷ fs) = ground (arith, select-delete_self id name fs)
