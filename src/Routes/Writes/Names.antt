-- ===== src/Routes/Writes/Names.antt =====
-- The names that get into the database through the handlers.
use project_tracker.Base.{
  option_cases, ℕ, ◌≡◌, refl, sym, Bool, true, false, not, Option, none, some, List, [], ◌∷◌, arith,
  All, All-append, All-keep_sub, Bytes, bytes_eq→eq, Option-cases, Bool-cases, if_cases, inl, inr,
  is_empty,
}
use project_tracker.Json.{Json}
use project_tracker.Models.{Project}
use project_tracker.Patch.{apply_patch}
use project_tracker.Sanitizer.{is_valid_slug, is_valid_filename}
use project_tracker.Db.{
  ProjectRow, FileRow, Database, select_file, upsert_file, update_project_row,
  get_project_id_unlocked, is_file, select_project,
}
use project_tracker.Db.Projects.{
  create, update, remove, remove_in_transaction, new_row, changed_row,
}
use project_tracker.Db.Files.{
  put_file, delete_file, patch_file, patch_in_project, save_patched, write_file, content_of,
}

abbrev pub HasValidSlug : ProjectRow → Type 0
HasValidSlug p = is_valid_slug p.slug ≡ true

abbrev pub HasValidName : List Bytes → FileRow → Type 0
HasValidName allowed f = is_valid_filename allowed f.filename ≡ true

-- Every project has a valid slug and every file a name that `isValidFilename` accepts.
abbrev pub IsNamed : List Bytes → Database → Type 0
IsNamed allowed db = All HasValidSlug db.projects × All (HasValidName allowed) db.files

All-update_project_row :
    (slug : Bytes) (fields : Json) (now : Bytes) (ps : List ProjectRow)
    → All HasValidSlug ps
    → All HasValidSlug (update_project_row slug (changed_row fields now) ps)
unfolding update_project_row changed_row
All-update_project_row slug fields now [] h = tt
All-update_project_row slug fields now (p ∷ ps) (h, hs) =
    ground (arith, All-update_project_row slug fields now ps hs)

module _ (allowed : List Bytes) where
  All-upsert :
      (id : ℕ) (name content now : Bytes) (fs : List FileRow)
      → is_valid_filename allowed name ≡ true
      → All (HasValidName allowed) fs
      → All (HasValidName allowed) (upsert_file id name content now fs)
  unfolding upsert_file
  All-upsert id name content now [] n h = (n, tt)
  All-upsert id name content now (f ∷ fs) n (h, hs) =
      ground (arith, All-upsert id name content now fs n hs)

  HasValidName-selected :
      (id : ℕ) (name : Bytes) (fs : List FileRow) (f : FileRow)
      → All (HasValidName allowed) fs
      → select_file id name fs ≡ some f
      → is_valid_filename allowed name ≡ true
  unfolding select_file
  HasValidName-selected id name [] f h e = cc
  HasValidName-selected id name (g ∷ fs) f (h, hs) e = elim (Bool-cases (is_file id name g)) [
    | inl found ↦ rw (sym (bytes_eq→eq g.filename name (ground arith))) h
    | inr other ↦ HasValidName-selected id name fs f hs (ground arith)
  ]

  pub create-IsNamed :
      (db : Database) (io : Bool) (p : Project) (now : Bytes)
      → is_valid_slug p.slug ≡ true
      → IsNamed allowed db
      → IsNamed allowed (create db io p now).0
  unfolding create new_row
  create-IsNamed db io p now valid (hp, hf) =
      elim (Option-cases (select_project p.slug db.projects)) [
        | inl e ↦
            rw (e, create)
              (if_cases (λ (r : Database × Bool). IsNamed allowed r.0) io _ _
                (λ _. (All-append HasValidSlug db.projects _ hp (valid, tt), hf)) (λ _. (hp, hf)))
        | inr (row, e) ↦ rw (e, create) (hp, hf)
      ]

  pub update-IsNamed :
      (db : Database) (io : Bool) (slug : Bytes) (fields : Json) (now : Bytes)
      → IsNamed allowed db
      → IsNamed allowed (update db io slug fields now).0
  unfolding update
  update-IsNamed db io slug fields now (hp, hf) =
      option_cases (λ (r : Database × Bool). IsNamed allowed r.0) (select_project slug db.projects)
        _ _ (hp, hf)
        (λ row _.
          if_cases (λ (r : Database × Bool). IsNamed allowed r.0) io _ _
            (λ _. (All-update_project_row slug fields now db.projects hp, hf)) (λ _. (hp, hf)))

  pub remove-IsNamed :
      (db : Database) (io : ℕ → Bool) (slug : Bytes)
      → IsNamed allowed db
      → IsNamed allowed (remove db io slug).0
  unfolding remove remove_in_transaction
  remove-IsNamed db io slug (hp, hf) =
      option_cases (λ (r : Database × Bool). IsNamed allowed r.0)
        (get_project_id_unlocked db (io 0) slug) _ _ (hp, hf)
        (λ id _.
          if_cases (λ (r : Database × Bool). IsNamed allowed r.0) (not (io 1)) _ _ (λ _. (hp, hf))
            λ _.
              if_cases (λ (r : Database × Bool). IsNamed allowed r.0) (not (io 2)) _ _
                (λ _. (hp, hf))
                λ _. (
                  All-keep_sub HasValidSlug _ db.projects hp,
                  All-keep_sub (HasValidName allowed) _ db.files hf,
                ))

  pub put_file-IsNamed :
      (db : Database) (io : ℕ → Bool) (slug name content now : Bytes)
      → is_valid_filename allowed name ≡ true
      → IsNamed allowed db
      → IsNamed allowed (put_file db io slug name content now).0
  unfolding put_file write_file
  put_file-IsNamed db io slug name content now n (hp, hf) =
      option_cases (λ (r : Database × Bool). IsNamed allowed r.0)
        (get_project_id_unlocked db (io 0) slug) _ _ (hp, hf)
        (λ id _.
          if_cases (λ (r : Database × Bool). IsNamed allowed r.0) (io 1) _ _
            (λ _. (hp, All-upsert id name content now db.files n hf)) (λ _. (hp, hf)))

  pub delete_file-IsNamed :
      (db : Database) (io : ℕ → Bool) (slug name : Bytes)
      → IsNamed allowed db
      → IsNamed allowed (delete_file db io slug name).0
  unfolding delete_file
  delete_file-IsNamed db io slug name (hp, hf) =
      option_cases (λ (r : Database × Bool). IsNamed allowed r.0)
        (get_project_id_unlocked db (io 0) slug) _ _ (hp, hf)
        (λ id _.
          if_cases (λ (r : Database × Bool). IsNamed allowed r.0) (io 1) _ _
            (λ _. (hp, All-keep_sub (HasValidName allowed) _ db.files hf)) (λ _. (hp, hf)))

  save_patched-IsNamed :
      (db : Database) (io : Bool) (id : ℕ) (name now : Bytes) (o : Option Bytes)
      → is_valid_filename allowed name ≡ true
      → IsNamed allowed db
      → IsNamed allowed (save_patched db io id name now o).0
  unfolding write_file
  save_patched-IsNamed db io id name now none n h = h
  save_patched-IsNamed db io id name now (some c) n (hp, hf) =
      if_cases (λ (r : Database × Bool). IsNamed allowed r.0) io _ _
        (λ _. (hp, All-upsert id name c now db.files n hf)) (λ _. (hp, hf))

  named_of_content :
      (id : ℕ) (name : Bytes) (fs : List FileRow) (o : Option FileRow)
      → All (HasValidName allowed) fs
      → select_file id name fs ≡ o
      → is_empty (content_of o) ≡ false
      → is_valid_filename allowed name ≡ true
  named_of_content id name fs none h e k = absurd cc
  named_of_content id name fs (some f) h e k = HasValidName-selected id name fs f h e

  -- A patch cannot bring in a new name: it only writes a file that has content.
  pub patch_file-IsNamed :
      (db : Database) (io : ℕ → Bool) (slug name : Bytes) (patch : Json) (now : Bytes)
      → IsNamed allowed db
      → IsNamed allowed (patch_file db io slug name patch now).0
  unfolding patch_file patch_in_project
  patch_file-IsNamed db io slug name patch now (hp, hf) =
      option_cases (λ (r : Database × Bool). IsNamed allowed r.0)
        (get_project_id_unlocked db (io 0) slug) _ _ (hp, hf)
        (λ id _.
          let content = content_of (select_file id name db.files) in
          if_cases (λ (r : Database × Bool). IsNamed allowed r.0) (not (io 1)) _ _ (λ _. (hp, hf))
            λ _.
              if_cases (λ (r : Database × Bool). IsNamed allowed r.0) (is_empty content) _ _
                (λ _. (hp, hf))
                λ k.
                  save_patched-IsNamed db (io 2) id name now (apply_patch patch content)
                    (named_of_content id name db.files (select_file id name db.files) hf refl k)
                    (hp, hf))
