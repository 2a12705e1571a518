-- ===== src/Db/Store/Details.antt =====
-- What `getBySlug` gives after a write that reports success.
use mathlib.Core.List.Perm
use project_tracker.Base.{
  ℕ, suc, ◌≡◌, refl, ◌∙◌, ap, Bool, true, false, none, some, List, [], ◌∷◌, ◌++◌, arith, any, All,
  keep, map, Option-cases, Bool-cases, inl, inr, ◌==◌, Bytes, bytes_eq_refl, codes, if◌then◌else◌,
  length,
}
use project_tracker.Json.{Json}
use project_tracker.Models.{Project}
use project_tracker.Db.{
  ProjectRow, FileRow, Database, Sql, SqlLaws, select_project, get_project_id_unlocked,
  update_project_row, delete_project_row,
}
use project_tracker.Db.Projects.{
  create, update, remove, remove_in_transaction, new_row, changed_row, or_default, get_by_slug,
  detail, select_files, file_info,
}
use project_tracker.Db.Projects.Tables.{select-append, id_of_found}
use project_tracker.Db.Files.Tables.{IsOwned}
use project_tracker.Db.Calls.Invariant.{WellFormed}
use project_tracker.Db.Store.Selects.{next_is_fresh, select-update, select-delete_row}

-- A project that is not there has no rows of files.
keep-unowned :
    (ps : List ProjectRow) (id : ℕ) (fs : List FileRow)
    → All (IsOwned ps) fs
    → any (λ p. p.id == id) ps ≡ false
    → keep (λ f. f.project_id == id) fs ≡ []
keep-unowned ps id [] h n = refl
keep-unowned ps id (f ∷ fs) (o, h) n = elim (Bool-cases (f.project_id == id)) [
  | inl e ↦
      let same : f.project_id ≡ id = ground arith in
      let owned : any (λ p. p.id == id) ps ≡ true = rw same at o in absurd cc
  | inr e ↦ ground (arith, keep-unowned ps id fs h n)
]

pub get_by_slug_found :
    (sql : Sql) (db : Database) (slug : Bytes) (row : ProjectRow)
    → select_project slug db.projects ≡ some row
    → get_by_slug sql db true slug ≡ detail sql db row
unfolding get_by_slug
get_by_slug_found sql db slug row e = rw e

-- The new project, as a reader sees it.
abbrev pub created : ℕ → Project → (now : Bytes) → Project
created id p now = record {
  id = id;
  slug = p.slug;
  name = p.name;
  status = or_default p.status (codes "active");
  priority = or_default p.priority (codes "medium");
  tags = p.tags;
  description = p.description;
  repo_path = p.repo_path;
  created_at = now;
  updated_at = now;
  file_count = 0;
  files = [];
}

-- A creation that reports success.
create_done :
    (db : Database) (io : Bool) (p : Project) (now : Bytes)
    → (create db io p now).1 ≡ true
    → (select_project p.slug db.projects ≡ none)
      × ((create db io p now).0 ≡ record db {
        projects = db.projects ++ new_row db.next_id p now ∷ [];
        next_id = suc db.next_id;
      })
unfolding create
create_done db io p now h = elim (Option-cases (select_project p.slug db.projects)) [
  | inr (row, e) ↦ absurd (refuse (rw (e, create) at h))
  | inl e ↦ elim (Bool-cases io) [
    | inl t ↦ (e, rw (e, t, create))
    | inr f ↦ absurd (refuse (rw (e, f, create) at h))
  ]
]
  where
    refuse : ¬ (false ≡ true)
    refuse h = cc

-- An update that reports success.
update_done :
    (db : Database) (io : Bool) (slug : Bytes) (fields : Json) (now : Bytes)
    → (update db io slug fields now).1 ≡ true
    → (row : ProjectRow) × (select_project slug db.projects ≡ some row)
      × ((update db io slug fields now).0
          ≡ record db { projects = update_project_row slug (changed_row fields now) db.projects })
unfolding update
update_done db io slug fields now h = elim (Option-cases (select_project slug db.projects)) [
  | inl e ↦ absurd (refuse (rw (e, update) at h))
  | inr (row, e) ↦ elim (Bool-cases io) [
    | inl t ↦ (row, e, rw (e, t, update))
    | inr f ↦ absurd (refuse (rw (e, f, update) at h))
  ]
]
  where
    refuse : ¬ (false ≡ true)
    refuse h = cc

-- A removal that reports success.
remove_done :
    (db : Database) (io : ℕ → Bool) (slug : Bytes)
    → (remove db io slug).1 ≡ true
    → (row : ProjectRow) × (select_project slug db.projects ≡ some row)
      × ((remove db io slug).0.projects ≡ delete_project_row row.id db.projects)
unfolding remove remove_in_transaction
remove_done db io slug h = elim (Option-cases (get_project_id_unlocked db (io 0) slug)) [
  | inl e ↦ absurd (refuse (rw (e, remove) at h))
  | inr (id, e) ↦
      let (row, found, same) = id_of_found db (io 0) slug id e in
      elim (Bool-cases (io 1)) [
        | inr f ↦ absurd (refuse (rw (e, f, remove) at h))
        | inl t ↦ elim (Bool-cases (io 2)) [
          | inr f ↦ absurd (refuse (rw (e, t, f, remove) at h))
          | inl u ↦ (row, found, rw (e, t, u, remove, same))
        ]
      ]
]
  where
    refuse : ¬ (false ≡ true)
    refuse h = cc

module _ (sql : Sql) (laws : SqlLaws sql) (db : Database) (v : WellFormed db) where
  no_files_after :
      (p : Project) (now : Bytes)
      → select_files sql
          (record db {
            projects = db.projects ++ new_row db.next_id p now ∷ [];
            next_id = suc db.next_id;
          })
          db.next_id
        ≡ []
  unfolding select_files
  no_files_after p now =
      let empty =
        keep-unowned db.projects db.next_id db.files v.owned
          (next_is_fresh db.next_id db.projects v.ids) in
      rw empty (ap (map file_info) (Perm.eq-nil (laws.by_filename_perm [])))

  pub get_by_slug-create :
      (io : Bool) (p : Project) (now : Bytes)
      → (create db io p now).1 ≡ true
      → get_by_slug sql (create db io p now).0 true p.slug ≡ created db.next_id p now
  unfolding detail new_row
  get_by_slug-create io p now h =
      let (free, after) = create_done db io p now h in
      let found =
        select-append p.slug db.projects (new_row db.next_id p now) free
        ∙ ap (λ (t : Bool). if t then some (new_row db.next_id p now) else none)
            (bytes_eq_refl p.slug) in
      ap (λ d. get_by_slug sql d true p.slug) after
      ∙ (get_by_slug_found sql _ p.slug _ found
          ∙ ap (λ fs. record (created db.next_id p now) { file_count = length fs; files = fs })
              (no_files_after p now))

  pub get_by_slug-update :
      (io : Bool) (slug : Bytes) (fields : Json) (now : Bytes)
      → (update db io slug fields now).1 ≡ true
      → (row : ProjectRow) × (select_project slug db.projects ≡ some row)
        × (get_by_slug sql (update db io slug fields now).0 true slug
            ≡ detail sql db (changed_row fields now row))
  unfolding detail select_files changed_row
  get_by_slug-update io slug fields now h =
      let (row, found, after) = update_done db io slug fields now h in
      let changed : select_project slug
            (update_project_row slug (changed_row fields now) db.projects)
          ≡ some (changed_row fields now row) =
        rw (
          select-update slug slug (changed_row fields now) db.projects (λ p. refl),
          bytes_eq_refl slug,
          found,
        ) in
      (
        row,
        found,
        ap (λ d. get_by_slug sql d true slug) after ∙ get_by_slug_found sql _ slug _ changed,
      )

pub select-remove :
    (db : Database) (io : ℕ → Bool) (slug : Bytes)
    → WellFormed db
    → (remove db io slug).1 ≡ true
    → select_project slug (remove db io slug).0.projects ≡ none
select-remove db io slug v h =
    let (row, found, after) = remove_done db io slug h in
    rw after (select-delete_row slug db.projects row v.slugs found)
