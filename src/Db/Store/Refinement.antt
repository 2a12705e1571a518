-- ===== src/Db/Store/Refinement.antt =====
-- The calls of the database against those of the store that the tables stand for.
use mathlib.Core.Path.{fun_ext}
use project_tracker.Base.{
  ℕ, suc, ◌≡◌, refl, ap, ◌∙◌, Bool, true, false, Option, none, some, List, [], ◌∷◌, arith, All, any,
  Option-cases, Bool-cases, inl, inr, Bytes, is_empty,
}
use project_tracker.Json.{Json}
use project_tracker.Models.{Project}
use project_tracker.Patch.{apply_patch}
use project_tracker.Db.{
  ProjectRow, FileRow, Database, select_project, select_file, get_project_id_unlocked, is_file,
}
use project_tracker.Db.Projects.{create, update, remove, remove_in_transaction}
use project_tracker.Db.Projects.Tables.{any_of_select}
use project_tracker.Db.Files.{
  put_file, delete_file, patch_file, patch_in_project, save_patched, write_file, contents,
  content_of,
}
use project_tracker.Db.Files.Laws.{all_through}
use project_tracker.Db.Calls.{Call, creates, updates, removes, puts, deletes, patches, step, run}
use project_tracker.Db.Calls.Failures.{keep_all}
use project_tracker.Db.Calls.Invariant.{WellFormed, step-WellFormed}
use project_tracker.Db.Store.{
  Entry, Store, Answer, entry_of, view, act, obey, replaced, GoesThrough, spec_step, spec_run,
  slug_of,
}
use project_tracker.Db.Store.Entries.{
  entry-create, entry-update, entry-put, entry-delete_file, entry-remove,
}

-- The new database stands for the store that the answer makes, and the results agree.
abbrev Obeys : Call → Database → Database × Bool → Answer → Type 0
Obeys c db r a = (view r.0 ≡ (obey c (view db) a).0) × (r.1 ≡ (obey c (view db) a).1)

store_eq :
    (f g : Bytes → Option Entry) (n : ℕ)
    → ((s : Bytes) → f s ≡ g s)
    → ◌≡◌ {A = Store} (record { entry = f; next_id = n }) (record { entry = g; next_id = n })
store_eq f g n h = ap (λ entry. record { entry = entry; next_id = n }) (fun_ext h)

any_file-none :
    (id : ℕ) (name : Bytes) (fs : List FileRow)
    → select_file id name fs ≡ none
    → any (is_file id name) fs ≡ false
unfolding select_file
any_file-none id name [] e = refl
any_file-none id name (f ∷ fs) e = ground (arith, any_file-none id name fs)

any_file-some :
    (id : ℕ) (name : Bytes) (fs : List FileRow) (f : FileRow)
    → select_file id name fs ≡ some f
    → any (is_file id name) fs ≡ true
unfolding select_file
any_file-some id name [] f e = cc
any_file-some id name (g ∷ fs) f e = ground (arith, any_file-some id name fs f)

module _ (db : Database) (v : WellFormed db) where
  create-Obeys :
      (p : Project) (now : Bytes) (o : Option ProjectRow)
      → select_project p.slug db.projects ≡ o
      → Obeys
          (creates p now true)
          db
          (create db true p now)
          (act db.next_id (creates p now true) (entry_of db.files o))
  unfolding create
  create-Obeys p now none e =
      rw (e, create) (store_eq _ _ (suc db.next_id) (λ s. entry-create db v p now s e), refl)
  create-Obeys p now (some row) e = rw (e, create) (refl, refl)

  update-Obeys :
      (slug now : Bytes) (fields : Json) (o : Option ProjectRow)
      → select_project slug db.projects ≡ o
      → Obeys
          (updates slug fields now true)
          db
          (update db true slug fields now)
          (act db.next_id (updates slug fields now true) (entry_of db.files o))
  unfolding update
  update-Obeys slug now fields none e = rw (e, update) (refl, refl)
  update-Obeys slug now fields (some row) e =
      rw (e, update)
        (store_eq _ _ db.next_id (λ s. entry-update db v slug s now fields row e), refl)

  remove-Obeys :
      (slug : Bytes) (o : Option ProjectRow)
      → select_project slug db.projects ≡ o
      → Obeys
          (removes slug all_through)
          db
          (remove db all_through slug)
          (act db.next_id (removes slug all_through) (entry_of db.files o))
  unfolding remove get_project_id_unlocked remove_in_transaction
  remove-Obeys slug none e = rw (e, remove) (refl, refl)
  remove-Obeys slug (some row) e =
      rw (e, remove)
        (
          store_eq _ _ db.next_id (λ s. entry-remove db v slug s row e),
          any_of_select slug db.projects row e,
        )

  put_file-Obeys :
      (slug name content now : Bytes) (o : Option ProjectRow)
      → select_project slug db.projects ≡ o
      → Obeys
          (puts slug name content now all_through)
          db
          (put_file db all_through slug name content now)
          (act db.next_id (puts slug name content now all_through) (entry_of db.files o))
  unfolding put_file get_project_id_unlocked write_file
  put_file-Obeys slug name content now none e = rw (e, put_file) (refl, refl)
  put_file-Obeys slug name content now (some row) e =
      rw (e, put_file)
        (store_eq _ _ db.next_id (λ s. entry-put db v slug s name content now row e), refl)

  delete_file-Obeys :
      (slug name : Bytes) (o : Option ProjectRow)
      → select_project slug db.projects ≡ o
      → Obeys
          (deletes slug name all_through)
          db
          (delete_file db all_through slug name)
          (act db.next_id (deletes slug name all_through) (entry_of db.files o))
  unfolding delete_file get_project_id_unlocked
  delete_file-Obeys slug name none e = rw (e, delete_file) (refl, refl)
  delete_file-Obeys slug name (some row) e =
      elim (Option-cases (select_file row.id name db.files)) [
        | inl free ↦
            let nothing = any_file-none row.id name db.files free in
            rw (e, delete_file, free, nothing)
              (
                ap (λ fs. view (record db { files = fs }))
                    (keep_all (is_file row.id name) db.files nothing),
                refl,
              )
        | inr (f, found) ↦
            rw (e, delete_file, found)
              (
                store_eq _ _ db.next_id (λ s. entry-delete_file db v slug s name row e),
                any_file-some row.id name db.files f found,
              )
      ]

  save_patched-Obeys :
      (slug name now : Bytes) (patch : Json) (row : ProjectRow) (o : Option Bytes)
      → select_project slug db.projects ≡ some row
      → Obeys
          (patches slug name patch now all_through)
          db
          (save_patched db true row.id name now o)
          (replaced
            (record { row = row; file = λ n. contents (select_file row.id n db.files) })
            name
            o)
  unfolding write_file
  save_patched-Obeys slug name now patch row none e = (refl, refl)
  save_patched-Obeys slug name now patch row (some c) e =
      (store_eq _ _ db.next_id (λ s. entry-put db v slug s name c now row e), refl)

  patch_file-Obeys :
      (slug name now : Bytes) (patch : Json) (o : Option ProjectRow)
      → select_project slug db.projects ≡ o
      → Obeys
          (patches slug name patch now all_through)
          db
          (patch_file db all_through slug name patch now)
          (act db.next_id (patches slug name patch now all_through) (entry_of db.files o))
  unfolding patch_file get_project_id_unlocked patch_in_project
  patch_file-Obeys slug name now patch none e = rw (e, patch_file) (refl, refl)
  patch_file-Obeys slug name now patch (some row) e =
      elim (Option-cases (select_file row.id name db.files)) [
        | inl free ↦ rw (e, patch_file, free) (refl, refl)
        | inr (f, found) ↦ elim (Bool-cases (is_empty (content_of (some f)))) [
          | inl empty ↦ rw (e, patch_file, found, empty) (refl, refl)
          | inr full ↦
              rw (e, patch_file, found, full)
                (save_patched-Obeys slug name now patch row
                  (apply_patch patch (content_of (some f))) e)
        ]
      ]

  -- Each call, of a database whose tables are well formed, with SQLite going through with it.
  step-Obeys :
      (c : Call)
      → GoesThrough c
      → Obeys c db
          (step db c)
          (act db.next_id c (entry_of db.files (select_project (slug_of c) db.projects)))
  unfolding step
  step-Obeys (creates p now io) h = rw h (create-Obeys p now _ refl)
  step-Obeys (updates slug fields now io) h = rw h (update-Obeys slug now fields _ refl)
  step-Obeys (removes slug io) h = rw (fun_ext h) (remove-Obeys slug _ refl)
  step-Obeys (puts slug name content now io) h =
      rw (fun_ext h) (put_file-Obeys slug name content now _ refl)
  step-Obeys (deletes slug name io) h = rw (fun_ext h) (delete_file-Obeys slug name _ refl)
  step-Obeys (patches slug name patch now io) h =
      rw (fun_ext h) (patch_file-Obeys slug name now patch _ refl)

-- A call on well-formed tables, where SQLite goes through with it, changes the store that the tables
-- stand for as the abstract call says, and gives the same answer.
pub view-step :
    (db : Database) (c : Call)
    → WellFormed db
    → GoesThrough c
    → (view (step db c).0 ≡ (spec_step (view db) c).0) × ((step db c).1 ≡ (spec_step (view db) c).1)
unfolding spec_step
view-step db c v h = step-Obeys db v c h

-- A history of calls on well-formed tables, where SQLite goes through with each, leads to the store
-- that the same history of abstract calls leads to.
pub view-run :
    (db : Database) (cs : List Call)
    → WellFormed db
    → All GoesThrough cs
    → view (run db cs) ≡ spec_run (view db) cs
unfolding run spec_run
view-run db [] v h = refl
view-run db (c ∷ cs) v (h, hs) =
    view-run (step db c).0 cs (step-WellFormed db c v) hs
    ∙ ap (λ st. spec_run st cs) (view-step db c v h).0
