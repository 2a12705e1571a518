-- ===== src/Db/Files/Laws.antt =====
-- What is read back after a write of a file.
use project_tracker.Base.{
  ℕ, ◌≡◌, refl, ◌∙◌, Bool, true, false, Option, none, some, List, arith, Bytes, bytes_eq,
  Option-cases, inl, inr, if_cases, is_empty,
}
use project_tracker.Json.{Json}
use project_tracker.Patch.{apply_patch}
use project_tracker.Db.{FileRow, Database, get_project_id_unlocked, select_file, upsert_file}
use project_tracker.Db.Files.Tables.{select-upsert_self, select-upsert_other}
use project_tracker.Db.Files.{
  get_file, put_file, patch_file, patch_in_project, save_patched, write_file, content_of, contents,
}

-- Every statement goes through.
abbrev pub all_through : ℕ → Bool
all_through k = true

content_of-contents : (o : Option FileRow) (c : Bytes) → contents o ≡ some c → content_of o ≡ c
content_of-contents none c e = cc
content_of-contents (some f) c e = cc

content-upsert_self :
    (id : ℕ) (name content now : Bytes) (fs : List FileRow)
    → content_of (select_file id name (upsert_file id name content now fs)) ≡ content
content-upsert_self id name content now fs =
    content_of-contents _ content (select-upsert_self id name content now fs)

-- Reading a file of a project that is there.
pub get_file_lem :
    (db : Database) (slug name : Bytes) (id : ℕ)
    → get_project_id_unlocked db true slug ≡ some id
    → get_file db all_through slug name ≡ content_of (select_file id name db.files)
unfolding get_file
get_file_lem db slug name id e = rw (e, get_file)

-- The project's id does not depend on the files.
id_after_write :
    (db : Database) (slug : Bytes) (id : ℕ) (name content now : Bytes)
    → get_project_id_unlocked (write_file db id name content now) true slug
      ≡ get_project_id_unlocked db true slug
unfolding write_file get_project_id_unlocked
id_after_write db slug id name content now = refl

-- Reading it after a write of some file of the project.
get_file_written :
    (db : Database) (slug name name' content now : Bytes) (id : ℕ)
    → get_project_id_unlocked db true slug ≡ some id
    → get_file (write_file db id name content now) all_through slug name'
      ≡ content_of (select_file id name' (upsert_file id name content now db.files))
unfolding write_file
get_file_written db slug name name' content now id e =
    get_file_lem (write_file db id name content now) slug name' id
      (id_after_write db slug id name content now ∙ e)

put_file_lem :
    (db : Database) (slug name content now : Bytes) (id : ℕ)
    → get_project_id_unlocked db true slug ≡ some id
    → put_file db all_through slug name content now ≡ (write_file db id name content now, true)
unfolding put_file
put_file_lem db slug name content now id e = rw (e, put_file)

put_file-none :
    (db : Database) (slug name content now : Bytes)
    → get_project_id_unlocked db true slug ≡ none
    → put_file db all_through slug name content now ≡ (db, false)
unfolding put_file
put_file-none db slug name content now e = rw (e, put_file)

-- After a PUT that reports success, the file reads back as exactly the bytes that were put.
pub get_file-put_file :
    (db : Database) (slug name content now : Bytes)
    → (put_file db all_through slug name content now).1 ≡ true
    → get_file (put_file db all_through slug name content now).0 all_through slug name ≡ content
get_file-put_file db slug name content now h =
    elim (Option-cases (get_project_id_unlocked db true slug)) [
      | inl e ↦
          let no : false ≡ true = rw (put_file-none db slug name content now e) at h in absurd cc
      | inr (id, e) ↦
          rw
            (
              put_file_lem db slug name content now id e,
              get_file_written db slug name name content now id e,
            )
            (content-upsert_self id name content now db.files)
    ]

-- A PUT leaves every other file of the project as it was.
pub get_file-put_file_other :
    (db : Database) (slug name name' content now : Bytes)
    → bytes_eq name name' ≡ false
    → get_file (put_file db all_through slug name content now).0 all_through slug name'
      ≡ get_file db all_through slug name'
get_file-put_file_other db slug name name' content now n =
    elim (Option-cases (get_project_id_unlocked db true slug)) [
      | inl e ↦ rw (put_file-none db slug name content now e)
      | inr (id, e) ↦ rw (
        put_file_lem db slug name content now id e,
        get_file_written db slug name name' content now id e,
        get_file_lem db slug name' id e,
        select-upsert_other id id name name' content now db.files (ground (arith, n)),
      )
    ]

patch_file_lem :
    (db : Database) (slug name : Bytes) (patch : Json) (now : Bytes) (id : ℕ)
    → get_project_id_unlocked db true slug ≡ some id
    → patch_file db all_through slug name patch now
      ≡ patch_in_project db all_through id name patch now
unfolding patch_file
patch_file_lem db slug name patch now id e = rw (e, patch_file)

patch_file-none :
    (db : Database) (slug name : Bytes) (patch : Json) (now : Bytes)
    → get_project_id_unlocked db true slug ≡ none
    → patch_file db all_through slug name patch now ≡ (db, false)
unfolding patch_file
patch_file-none db slug name patch now e = rw (e, patch_file)

save_patched-true :
    (db : Database) (id : ℕ) (name now : Bytes) (o : Option Bytes)
    → (save_patched db true id name now o).1 ≡ true
    → (r : Bytes) × (o ≡ some r)
      × ((save_patched db true id name now o).0 ≡ write_file db id name r now)
save_patched-true db id name now none h = absurd cc
save_patched-true db id name now (some r) h = (r, refl, refl)

patch_in_project-true :
    (db : Database) (id : ℕ) (name : Bytes) (patch : Json) (now : Bytes)
    → (patch_in_project db all_through id name patch now).1 ≡ true
    → (r : Bytes) × (apply_patch patch (content_of (select_file id name db.files)) ≡ some r)
      × ((patch_in_project db all_through id name patch now).0 ≡ write_file db id name r now)
unfolding patch_in_project
patch_in_project-true db id name patch now =
    if_cases
      (λ (r : Database × Bool).
        r.1 ≡ true
        → (b : Bytes) × (apply_patch patch (content_of (select_file id name db.files)) ≡ some b)
          × (r.0 ≡ write_file db id name b now))
      (is_empty (content_of (select_file id name db.files))) _ _ (λ _ h. absurd cc)
      (λ _ h. save_patched-true db id name now _ h)

-- After a PATCH that reports success, the file reads back as the bytes that `apply_patch` makes of
-- those it had.
pub get_file-patch_file :
    (db : Database) (slug name : Bytes) (patch : Json) (now : Bytes)
    → (patch_file db all_through slug name patch now).1 ≡ true
    → apply_patch patch (get_file db all_through slug name)
      ≡ some (get_file (patch_file db all_through slug name patch now).0 all_through slug name)
get_file-patch_file db slug name patch now h =
    elim (Option-cases (get_project_id_unlocked db true slug)) [
      | inl e ↦
          let no : false ≡ true = rw (patch_file-none db slug name patch now e) at h in absurd cc
      | inr (id, e) ↦
          let (r, done, after) =
            patch_in_project-true db id name patch now
              (rw (patch_file_lem db slug name patch now id e) at h) in
          rw (
            patch_file_lem db slug name patch now id e,
            after,
            get_file_lem db slug name id e,
            get_file_written db slug name name r now id e,
            content-upsert_self id name r now db.files,
            done,
          )
    ]
