-- ===== src/Db/Calls/Failures.antt =====
-- The writes that report failure.
use project_tracker.Base.{
  ℕ, ◌≡◌, refl, ap, Bool, true, false, not, Option, none, some, List, [], ◌∷◌, any, keep, Bytes,
  Option-cases, inl, inr, if_cases, or-eq-false, is_empty,
}
use project_tracker.Json.{Json}
use project_tracker.Patch.{apply_patch}
use project_tracker.Models.{Project}
use project_tracker.Db.{
  ProjectRow, Database, select_project, get_project_id_unlocked, is_file, select_file,
}
use project_tracker.Db.Projects.{create, update, remove, remove_in_transaction}
use project_tracker.Db.Files.{
  put_file, delete_file, patch_file, patch_in_project, save_patched, content_of,
}
use project_tracker.Db.Projects.Tables.{id_of_found, any_of_select}
use project_tracker.Db.Calls.{Call, creates, updates, removes, puts, deletes, patches, step}

abbrev IsAtomic : Database → Database × Bool → Type 0
IsAtomic db r = r.1 ≡ false → r.0 ≡ db

pub keep_all {ℓ} :
    {A : Type ℓ} (t : A → Bool) (xs : List A) → any t xs ≡ false → keep (λ x. not (t x)) xs ≡ xs
keep_all t [] h = refl
keep_all t (x ∷ xs) h =
    let (here, later) = or-eq-false (t x) (any t xs) h in
    let passes : not (t x) ≡ true = ap not here in
    rw (passes, keep) (ap (◌∷◌ x) (keep_all t xs later))

create-IsAtomic :
    (db : Database) (io : Bool) (p : Project) (now : Bytes) → IsAtomic db (create db io p now)
unfolding create
create-IsAtomic db io p now = elim (Option-cases (select_project p.slug db.projects)) [
  | inl e ↦ rw (e, create) (if_cases (IsAtomic db) io _ _ (λ _ no. cc) (λ _ _. refl))
  | inr (row, e) ↦ rw (e, create) (λ _. refl)
]

update-IsAtomic :
    (db : Database) (io : Bool) (slug : Bytes) (fields : Json) (now : Bytes)
    → IsAtomic db (update db io slug fields now)
unfolding update
update-IsAtomic db io slug fields now = elim (Option-cases (select_project slug db.projects)) [
  | inl e ↦ rw (e, update) (λ _. refl)
  | inr (row, e) ↦ rw (e, update) (if_cases (IsAtomic db) io _ _ (λ _ no. cc) (λ _ _. refl))
]

remove_in_transaction-IsAtomic :
    (db : Database) (io : ℕ → Bool) (slug : Bytes) (row : ProjectRow)
    → select_project slug db.projects ≡ some row
    → IsAtomic db (remove_in_transaction db io row.id)
unfolding remove_in_transaction
remove_in_transaction-IsAtomic db io slug row found =
    if_cases (IsAtomic db) (not (io 1)) _ _ (λ _ _. refl)
      λ _.
        if_cases (IsAtomic db) (not (io 2)) _ _ (λ _ _. refl)
          λ _ no. cc (any_of_select slug db.projects row found)

remove-IsAtomic : (db : Database) (io : ℕ → Bool) (slug : Bytes) → IsAtomic db (remove db io slug)
unfolding remove
remove-IsAtomic db io slug = elim (Option-cases (get_project_id_unlocked db (io 0) slug)) [
  | inl e ↦ rw (e, remove) (λ _. refl)
  | inr (id, e) ↦
      let (row, found, same) = id_of_found db (io 0) slug id e in
      rw (e, remove) (rw (← same) (remove_in_transaction-IsAtomic db io slug row found))
]

put_file-IsAtomic :
    (db : Database) (io : ℕ → Bool) (slug filename content now : Bytes)
    → IsAtomic db (put_file db io slug filename content now)
unfolding put_file
put_file-IsAtomic db io slug filename content now =
    elim (Option-cases (get_project_id_unlocked db (io 0) slug)) [
      | inl e ↦ rw (e, put_file) (λ _. refl)
      | inr (id, e) ↦
          rw (e, put_file) (if_cases (IsAtomic db) (io 1) _ _ (λ _ no. cc) (λ _ _. refl))
    ]

delete_file-IsAtomic :
    (db : Database) (io : ℕ → Bool) (slug filename : Bytes)
    → IsAtomic db (delete_file db io slug filename)
unfolding delete_file
delete_file-IsAtomic db io slug filename =
    elim (Option-cases (get_project_id_unlocked db (io 0) slug)) [
      | inl e ↦ rw (e, delete_file) (λ _. refl)
      | inr (id, e) ↦
          rw (e, delete_file)
            (if_cases (IsAtomic db) (io 1) _ _
              (λ _ missing.
                ap (λ fs. record db { files = fs })
                  (keep_all (is_file id filename) db.files missing))
              (λ _ _. refl))
    ]

save_patched-IsAtomic :
    (db : Database) (io : Bool) (id : ℕ) (filename now : Bytes) (o : Option Bytes)
    → IsAtomic db (save_patched db io id filename now o)
save_patched-IsAtomic db io id filename now none h = refl
save_patched-IsAtomic db io id filename now (some c) h =
    if_cases (IsAtomic db) io _ _ (λ _ no. cc) (λ _ _. refl) h

patch_in_project-IsAtomic :
    (db : Database) (io : ℕ → Bool) (id : ℕ) (filename : Bytes) (patch : Json) (now : Bytes)
    → IsAtomic db (patch_in_project db io id filename patch now)
unfolding patch_in_project
patch_in_project-IsAtomic db io id filename patch now =
    let content = content_of (select_file id filename db.files) in
    if_cases (IsAtomic db) (not (io 1)) _ _ (λ _ _. refl)
      λ _.
        if_cases (IsAtomic db) (is_empty content) _ _ (λ _ _. refl)
          λ _. save_patched-IsAtomic db (io 2) id filename now (apply_patch patch content)

patch_file-IsAtomic :
    (db : Database) (io : ℕ → Bool) (slug filename : Bytes) (patch : Json) (now : Bytes)
    → IsAtomic db (patch_file db io slug filename patch now)
unfolding patch_file
patch_file-IsAtomic db io slug filename patch now =
    elim (Option-cases (get_project_id_unlocked db (io 0) slug)) [
      | inl e ↦ rw (e, patch_file) (λ _. refl)
      | inr (id, e) ↦ rw (e, patch_file) (patch_in_project-IsAtomic db io id filename patch now)
    ]

-- A write that reports failure has changed nothing, at whichever statement SQLite threw: also a
-- removal that had deleted the files already, and a patch that had read the file.
pub step-false : (db : Database) (c : Call) → (step db c).1 ≡ false → (step db c).0 ≡ db
unfolding step
step-false db (creates p now io) = create-IsAtomic db io p now
step-false db (updates slug fields now io) = update-IsAtomic db io slug fields now
step-false db (removes slug io) = remove-IsAtomic db io slug
step-false db (puts slug filename content now io) =
    put_file-IsAtomic db io slug filename content now
step-false db (deletes slug filename io) = delete_file-IsAtomic db io slug filename
step-false db (patches slug filename patch now io) =
    patch_file-IsAtomic db io slug filename patch now
