-- ===== src/Routes/Writes/Decent.antt =====
-- The calls of the database that leave the fields of the projects tidy.
use project_tracker.Base.{
  ℕ, Bool, not, Option, none, some, List, [], ◌∷◌, All, All-append, All-keep_sub, Bytes, if_cases,
  option_cases, is_empty, bytes_eq,
}
use project_tracker.Json.{Json}
use project_tracker.Db.{
  select_file, ProjectRow, Database, update_project_row, select_project, get_project_id_unlocked,
}
use project_tracker.Db.Projects.{
  create, update, remove, remove_in_transaction, new_row, changed_row,
}
use project_tracker.Db.Files.{
  put_file, delete_file, patch_file, patch_in_project, save_patched, write_file, content_of,
}
use project_tracker.Db.Calls.{Call, creates, updates, removes, puts, deletes, patches, step}
use project_tracker.Patch.{apply_patch}
use project_tracker.Routes.Writes.{puts, deletes}
use project_tracker.Routes.Writes.Fields.{IsTidy, IsChecked, changed_row-IsTidy}

abbrev pub AreTidy : Database → Type 0
AreTidy db = All IsTidy db.projects

-- A call that keeps the fields tidy: what it stores of a body has been checked.
abbrev pub IsDecent : Call → Type 0
IsDecent (creates p now io) = (id : ℕ) → IsTidy (new_row id p now)
IsDecent (updates slug fields now io) = IsChecked fields
IsDecent (removes slug io) = Unit {0}
IsDecent (puts slug name content now io) = Unit {0}
IsDecent (deletes slug name io) = Unit {0}
IsDecent (patches slug name patch now io) = Unit {0}

AreTidy-update :
    (slug : Bytes) (fields : Json) (now : Bytes) (ps : List ProjectRow)
    → IsChecked fields
    → All IsTidy ps
    → All IsTidy (update_project_row slug (changed_row fields now) ps)
unfolding update_project_row
AreTidy-update slug fields now [] c h = tt
AreTidy-update slug fields now (p ∷ ps) c (h, hs) = (
  if_cases IsTidy (bytes_eq p.slug slug) _ _ (λ _. changed_row-IsTidy fields now p c h) (λ _. h),
  AreTidy-update slug fields now ps c hs,
)

abbrev Keeps : Database × Bool → Type 0
Keeps r = AreTidy r.0

module _ (db : Database) (h : AreTidy db) where
  put_file-AreTidy :
      (io : ℕ → Bool) (slug name content now : Bytes) → Keeps (put_file db io slug name content now)
  unfolding put_file write_file
  put_file-AreTidy io slug name content now =
      option_cases Keeps (get_project_id_unlocked db (io 0) slug) _ _ h
        (λ id _. if_cases Keeps (io 1) _ _ (λ _. h) (λ _. h))

  delete_file-AreTidy : (io : ℕ → Bool) (slug name : Bytes) → Keeps (delete_file db io slug name)
  unfolding delete_file
  delete_file-AreTidy io slug name =
      option_cases Keeps (get_project_id_unlocked db (io 0) slug) _ _ h
        (λ id _. if_cases Keeps (io 1) _ _ (λ _. h) (λ _. h))

  save_patched-AreTidy :
      (io : Bool) (id : ℕ) (name now : Bytes) (o : Option Bytes)
      → Keeps (save_patched db io id name now o)
  unfolding write_file
  save_patched-AreTidy io id name now none = h
  save_patched-AreTidy io id name now (some result) = if_cases Keeps io _ _ (λ _. h) (λ _. h)

  patch_file-AreTidy :
      (io : ℕ → Bool) (slug name : Bytes) (patch : Json) (now : Bytes)
      → Keeps (patch_file db io slug name patch now)
  unfolding patch_file patch_in_project
  patch_file-AreTidy io slug name patch now =
      option_cases Keeps (get_project_id_unlocked db (io 0) slug) _ _ h (λ id _.
        let content = content_of (select_file id name db.files) in
        if_cases Keeps (not (io 1)) _ _ (λ _. h)
          λ _.
            if_cases Keeps (is_empty content) _ _ (λ _. h)
              (λ _. save_patched-AreTidy (io 2) id name now (apply_patch patch content)))

  remove-AreTidy : (io : ℕ → Bool) (slug : Bytes) → Keeps (remove db io slug)
  unfolding remove remove_in_transaction
  remove-AreTidy io slug =
      option_cases Keeps (get_project_id_unlocked db (io 0) slug) _ _ h (λ id _.
        if_cases Keeps (not (io 1)) _ _ (λ _. h)
          λ _. if_cases Keeps (not (io 2)) _ _ (λ _. h) (λ _. All-keep_sub IsTidy _ db.projects h))

  pub step-AreTidy : (c : Call) → IsDecent c → Keeps (step db c)
  unfolding step create update
  step-AreTidy (creates p now io) d =
      option_cases Keeps (select_project p.slug db.projects) _ _
        (if_cases Keeps io _ _ (λ _. All-append IsTidy db.projects _ h (d db.next_id, tt)) (λ _. h))
        (λ row _. h)
  step-AreTidy (updates slug fields now io) d =
      option_cases Keeps (select_project slug db.projects) _ _ h (λ row _.
        if_cases Keeps io _ _ (λ _. AreTidy-update slug fields now db.projects d h) (λ _. h))
  step-AreTidy (removes slug io) d = remove-AreTidy io slug
  step-AreTidy (puts slug name content now io) d = put_file-AreTidy io slug name content now
  step-AreTidy (deletes slug name io) d = delete_file-AreTidy io slug name
  step-AreTidy (patches slug name patch now io) d = patch_file-AreTidy io slug name patch now
