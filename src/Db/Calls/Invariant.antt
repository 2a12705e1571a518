-- ===== src/Db/Calls/Invariant.antt =====
-- The constraints of the schema under histories of writes.
use project_tracker.Base.{
  ℕ, ◌≡◌, refl, ◌∙◌, Bool, false, not, Option, none, some, List, [], ◌∷◌, All, All-keep_sub, Bytes,
  Option-cases, inl, inr, if_cases, ◌==◌, is_empty,
}
use project_tracker.Json.{Json}
use project_tracker.Patch.{apply_patch}
use project_tracker.Models.{Project}
use project_tracker.Db.{
  ProjectRow, FileRow, Database, select_project, get_project_id_unlocked, is_file, select_file,
  delete_file_rows, update_project_row,
}
use project_tracker.Db.Projects.{
  create, new_row, update, changed_row, remove, remove_in_transaction,
}
use project_tracker.Db.Projects.Tables.{
  id_of_found, SlugsDistinct, IdsDistinct, SlugsDistinct-append, IdsDistinct-append,
  SlugsDistinct-update, IdsDistinct-update, any-update, SlugsDistinct-keep, IdsDistinct-keep,
  any_of_select,
}
use project_tracker.Db.Files.{
  put_file, delete_file, patch_file, patch_in_project, save_patched, write_file, content_of,
}
use project_tracker.Db.Files.Tables.{
  FilesDistinct, IsOwned, FilesDistinct-upsert, FilesDistinct-keep, upsert-IsOwned, IsOwned-append,
  IsOwned-delete,
}
use project_tracker.Db.Calls.{Call, creates, updates, removes, puts, deletes, patches, step, run}

-- What the schema demands: UNIQUE slugs, primary keys, UNIQUE(project_id, filename) and the foreign
-- key of each file.
pub record WellFormed (db : Database) : Type 0 where
  pub slugs : SlugsDistinct db.projects
  pub ids : IdsDistinct db.next_id db.projects
  pub names : FilesDistinct db.files
  pub owned : All (IsOwned db.projects) db.files

create-WellFormed :
    (db : Database) (io : Bool) (p : Project) (now : Bytes)
    → WellFormed db
    → WellFormed (create db io p now).0
unfolding create new_row
create-WellFormed db io p now v = elim (Option-cases (select_project p.slug db.projects)) [
  | inl e ↦
      rw (e, create)
        (if_cases (λ (r : Database × Bool). WellFormed r.0) io _ _
          (λ _. record {
            slugs = SlugsDistinct-append db.projects (new_row db.next_id p now) e v.slugs;
            ids = IdsDistinct-append db.next_id db.projects (new_row db.next_id p now) refl v.ids;
            names = v.names;
            owned = IsOwned-append db.projects (new_row db.next_id p now) db.files v.owned;
          })
          (λ _. v))
  | inr (row, e) ↦ rw (e, create) v
]

IsOwned-update :
    (slug : Bytes) (fields : Json) (now : Bytes) (ps : List ProjectRow) (fs : List FileRow)
    → All (IsOwned ps) fs
    → All (IsOwned (update_project_row slug (changed_row fields now) ps)) fs
unfolding changed_row
IsOwned-update slug fields now ps [] h = tt
IsOwned-update slug fields now ps (f ∷ fs) (k, h) = (
  any-update slug (changed_row fields now) (λ p. refl) (λ p. refl) f.project_id ps ∙ k,
  IsOwned-update slug fields now ps fs h,
)

update-WellFormed :
    (db : Database) (io : Bool) (slug : Bytes) (fields : Json) (now : Bytes)
    → WellFormed db
    → WellFormed (update db io slug fields now).0
unfolding update changed_row
update-WellFormed db io slug fields now v = elim (Option-cases (select_project slug db.projects)) [
  | inl e ↦ rw (e, update) v
  | inr (row, e) ↦
      let change = changed_row fields now in
      rw (e, update)
        (if_cases (λ (r : Database × Bool). WellFormed r.0) io _ _
          (λ _. record {
            slugs = SlugsDistinct-update slug change (λ p. refl) (λ p. refl) db.projects v.slugs;
            ids =
                IdsDistinct-update slug change (λ p. refl) (λ p. refl) db.next_id db.projects v.ids;
            names = v.names;
            owned = IsOwned-update slug fields now db.projects db.files v.owned;
          })
          (λ _. v))
]

remove_in_transaction-WellFormed :
    (db : Database) (io : ℕ → Bool) (id : ℕ)
    → WellFormed db
    → WellFormed (remove_in_transaction db io id).0
unfolding remove_in_transaction
remove_in_transaction-WellFormed db io id v =
    if_cases (λ (r : Database × Bool). WellFormed r.0) (not (io 1)) _ _ (λ _. v)
      λ _.
        if_cases (λ (r : Database × Bool). WellFormed r.0) (not (io 2)) _ _ (λ _. v)
          λ _. record {
            slugs = SlugsDistinct-keep (λ p. not (p.id == id)) db.projects v.slugs;
            ids = IdsDistinct-keep db.next_id (λ p. not (p.id == id)) db.projects v.ids;
            names = FilesDistinct-keep (λ f. not (f.project_id == id)) db.files v.names;
            owned = IsOwned-delete db.projects id db.files v.owned;
          }

-- A method that looks the project up first does nothing where there is none.
with_project {ℓ} :
    (P : Database × Bool → Type ℓ) (db : Database) (io : Bool) (slug : Bytes)
    (body : ℕ → Database × Bool)
    → P (db, false)
    → ((row : ProjectRow) → select_project slug db.projects ≡ some row → P (body row.id))
    → P (elim (get_project_id_unlocked db io slug) [ none ↦ (db, false) | some id ↦ body id ])
with_project P db io slug body missing found =
    elim (Option-cases (get_project_id_unlocked db io slug)) [
      | inl e ↦ rw e missing
      | inr (id, e) ↦
          let (row, here, same) = id_of_found db io slug id e in rw e (rw (← same) (found row here))
    ]

write_file-WellFormed :
    (db : Database) (slug : Bytes) (row : ProjectRow) (filename content now : Bytes)
    → select_project slug db.projects ≡ some row
    → WellFormed db
    → WellFormed (write_file db row.id filename content now)
unfolding write_file
write_file-WellFormed db slug row filename content now here v = record {
  slugs = v.slugs;
  ids = v.ids;
  names = FilesDistinct-upsert row.id filename content now db.files v.names;
  owned =
      upsert-IsOwned db.projects row.id filename content now db.files
        (any_of_select slug db.projects row here) v.owned;
}

delete_rows-WellFormed :
    (db : Database) (id : ℕ) (filename : Bytes)
    → WellFormed db
    → WellFormed (record db { files = delete_file_rows id filename db.files })
delete_rows-WellFormed db id filename v = record {
  slugs = v.slugs;
  ids = v.ids;
  names = FilesDistinct-keep (λ f. not (is_file id filename f)) db.files v.names;
  owned = All-keep_sub (IsOwned db.projects) (λ f. not (is_file id filename f)) db.files v.owned;
}

save_patched-WellFormed :
    (db : Database) (io : Bool) (slug : Bytes) (row : ProjectRow) (filename now : Bytes)
    (o : Option Bytes)
    → select_project slug db.projects ≡ some row
    → WellFormed db
    → WellFormed (save_patched db io row.id filename now o).0
save_patched-WellFormed db io slug row filename now none here v = v
save_patched-WellFormed db io slug row filename now (some c) here v =
    if_cases (λ (r : Database × Bool). WellFormed r.0) io _ _
      (λ _. write_file-WellFormed db slug row filename c now here v) (λ _. v)

patch_in_project-WellFormed :
    (db : Database) (io : ℕ → Bool) (slug : Bytes) (row : ProjectRow) (filename : Bytes)
    (patch : Json) (now : Bytes)
    → select_project slug db.projects ≡ some row
    → WellFormed db
    → WellFormed (patch_in_project db io row.id filename patch now).0
unfolding patch_in_project
patch_in_project-WellFormed db io slug row filename patch now here v =
    let content = content_of (select_file row.id filename db.files) in
    if_cases (λ (r : Database × Bool). WellFormed r.0) (not (io 1)) _ _ (λ _. v)
      λ _.
        if_cases (λ (r : Database × Bool). WellFormed r.0) (is_empty content) _ _ (λ _. v)
          λ _.
            save_patched-WellFormed db (io 2) slug row filename now (apply_patch patch content) here
              v

-- Every write, successful or not, keeps the constraints of the schema: distinct slugs, distinct
-- ids below the next one, one file of a name in a project, and no file without its project.
pub step-WellFormed : (db : Database) (c : Call) → WellFormed db → WellFormed (step db c).0
unfolding step remove put_file delete_file patch_file
step-WellFormed db (creates p now io) v = create-WellFormed db io p now v
step-WellFormed db (updates slug fields now io) v = update-WellFormed db io slug fields now v
step-WellFormed db (removes slug io) v =
    with_project (λ r. WellFormed r.0) db (io 0) slug _ v
      (λ row here. remove_in_transaction-WellFormed db io row.id v)
step-WellFormed db (puts slug filename content now io) v =
    with_project (λ r. WellFormed r.0) db (io 0) slug _ v
      λ row here.
        if_cases (λ (r : Database × Bool). WellFormed r.0) (io 1) _ _
          (λ _. write_file-WellFormed db slug row filename content now here v) (λ _. v)
step-WellFormed db (deletes slug filename io) v =
    with_project (λ r. WellFormed r.0) db (io 0) slug _ v
      λ row here.
        if_cases (λ (r : Database × Bool). WellFormed r.0) (io 1) _ _
          (λ _. delete_rows-WellFormed db row.id filename v) (λ _. v)
step-WellFormed db (patches slug filename patch now io) v =
    with_project (λ r. WellFormed r.0) db (io 0) slug _ v
      (λ row here. patch_in_project-WellFormed db io slug row filename patch now here v)

-- After any history of writes, successful or not, the constraints of the schema hold, if they held
-- before it.
pub run-WellFormed : (db : Database) (cs : List Call) → WellFormed db → WellFormed (run db cs)
unfolding run
run-WellFormed db [] v = v
run-WellFormed db (c ∷ cs) v = run-WellFormed (step db c).0 cs (step-WellFormed db c v)
