-- ===== src/Db/Store/Entries.antt =====
-- The store of a database after each write, entry by entry.
use mathlib.Core.Path.{fun_ext}
use project_tracker.Base.{
  ℕ, ◌≡◌, refl, sym, ap, false, ◌&&◌, Option, none, some, List, [], ◌∷◌, ◌++◌, arith, not,
  Option-cases, Bool-cases, inl, inr, if◌then◌else◌, ◌==◌, ==_iff, Bytes, bytes_eq, bytes_eq_iff,
  bytes_eq→eq,
}
use project_tracker.Json.{Json}
use project_tracker.Models.{Project}
use project_tracker.Db.{
  ProjectRow, FileRow, Database, select_project, select_file, upsert_file, delete_file_rows,
  delete_files_of, delete_project_row, update_project_row,
}
use project_tracker.Db.Projects.{new_row, changed_row}
use project_tracker.Db.Projects.Tables.{select-append, select-append_found, select-keep-none}
use project_tracker.Db.Files.{contents}
use project_tracker.Db.Files.Tables.{select-upsert_self, select-upsert_other, select-delete_self}
use project_tracker.Db.Calls.Invariant.{WellFormed}
use project_tracker.Db.Store.{Entry, entry_of, new_entry, with_file}
use project_tracker.Db.Store.Selects.{
  select-update, select-keep, ids_apart, next_is_fresh, select_file-unowned,
  select-delete_files_other, select-delete_rows_other, select-delete_row,
}

-- Entries of one row are equal if their files are.
pub entry_eq :
    (p : ProjectRow) (f g : Bytes → Option Bytes)
    → ((name : Bytes) → f name ≡ g name)
    → ◌≡◌ {A = Entry} (record { row = p; file = f }) (record { row = p; file = g })
entry_eq p f g h = ap (λ file. record { row = p; file = file }) (fun_ext h)

-- The entry under a slug, where the files of the project read as before.
entry_of-same :
    (fs gs : List FileRow) (o : Option ProjectRow)
    → ((p : ProjectRow) (name : Bytes)
        → o ≡ some p
        → select_file p.id name fs ≡ select_file p.id name gs)
    → entry_of fs o ≡ entry_of gs o
entry_of-same fs gs none h = refl
entry_of-same fs gs (some p) h = ap some (entry_eq p _ _ (λ name. ap contents (h p name refl)))

module _ (db : Database) (v : WellFormed db) where
  pub entry-create :
      (p : Project) (now s : Bytes)
      → select_project p.slug db.projects ≡ none
      → entry_of db.files (select_project s (db.projects ++ new_row db.next_id p now ∷ [])) ≡ (
          if bytes_eq p.slug s
          then some (new_entry db.next_id p now)
          else entry_of db.files (select_project s db.projects))
  unfolding new_row
  entry-create p now s free = elim (Option-cases (select_project s db.projects)) [
    | inr (row, e) ↦
        let ne : bytes_eq p.slug s ≡ false = ground (arith, bytes_eq_iff p.slug s) in
        rw (select-append_found s db.projects (new_row db.next_id p now) row e, e, ne)
    | inl e ↦ elim (Bool-cases (bytes_eq p.slug s)) [
      | inl same ↦
          rw (select-append s db.projects (new_row db.next_id p now) e, same)
            (ap some (
              entry_eq (new_row db.next_id p now) _ _ λ name. ap contents (
                select_file-unowned db.projects db.next_id name db.files v.owned
                  (next_is_fresh db.next_id db.projects v.ids))))
      | inr ne ↦ rw (select-append s db.projects (new_row db.next_id p now) e, ne, e)
    ]
  ]

  -- Another project's files stay where the files of `p` change.
  pub entry-other :
      (slug s : Bytes) (p : ProjectRow) (fs : List FileRow)
      → select_project slug db.projects ≡ some p
      → ((id : ℕ) (name : Bytes)
          → (p.id == id) ≡ false
          → select_file id name fs ≡ select_file id name db.files)
      → bytes_eq slug s ≡ false
      → entry_of fs (select_project s db.projects)
        ≡ entry_of db.files (select_project s db.projects)
  entry-other slug s p fs found keeps ne =
      entry_of-same fs db.files (select_project s db.projects)
        λ q name e. keeps q.id name (ids_apart db.next_id db.projects slug s p q v.ids found e ne)

  pub entry-update :
      (slug s now : Bytes) (fields : Json) (p : ProjectRow)
      → select_project slug db.projects ≡ some p
      → entry_of db.files
          (select_project s (update_project_row slug (changed_row fields now) db.projects))
        ≡ (if bytes_eq slug s
            then some (record {
              row = changed_row fields now p;
              file = λ name. contents (select_file p.id name db.files);
            })
            else entry_of db.files (select_project s db.projects))
  unfolding changed_row
  entry-update slug s now fields p found =
      rw (select-update slug s (changed_row fields now) db.projects (λ q. refl))
        (elim (Bool-cases (bytes_eq slug s)) [
          | inl same ↦ let e : slug ≡ s = bytes_eq→eq slug s same in rw (same, sym e, found)
          | inr ne ↦ rw ne
        ])

  -- The writes of one file: the rows of the project's other files, and of other projects, stay.
  entry-write :
      (slug s name : Bytes) (content : Option Bytes) (p : ProjectRow) (fs : List FileRow)
      → select_project slug db.projects ≡ some p
      → ((id : ℕ) (n : Bytes)
          → ((p.id == id) && bytes_eq name n) ≡ false
          → select_file id n fs ≡ select_file id n db.files)
      → contents (select_file p.id name fs) ≡ content
      → entry_of fs (select_project s db.projects) ≡ (
          if bytes_eq slug s
          then some (
              with_file name content
                (record { row = p; file = λ n. contents (select_file p.id n db.files) }))
          else entry_of db.files (select_project s db.projects))
  entry-write slug s name content p fs found others here = elim (Bool-cases (bytes_eq slug s)) [
    | inr ne ↦
        rw
          (ne, entry-other slug s p fs found (λ id n apart. others id n (ground (arith, apart))) ne)
    | inl same ↦
        let e : slug ≡ s = bytes_eq→eq slug s same in
        rw (same, sym e, found)
          (ap some (
            entry_eq p _ _ λ n. elim (Bool-cases (bytes_eq name n)) [
              | inl eq ↦ let e' : name ≡ n = bytes_eq→eq name n eq in rw (eq, sym e') here
              | inr other ↦ rw (other, others p.id n (ground (arith, other)))
            ]))
  ]

  pub entry-put :
      (slug s name content now : Bytes) (p : ProjectRow)
      → select_project slug db.projects ≡ some p
      → entry_of (upsert_file p.id name content now db.files) (select_project s db.projects) ≡ (
          if bytes_eq slug s
          then some (
              with_file name
                (some content)
                (record { row = p; file = λ n. contents (select_file p.id n db.files) }))
          else entry_of db.files (select_project s db.projects))
  entry-put slug s name content now p found =
      entry-write slug s name (some content) p _ found
        (λ id n apart. select-upsert_other p.id id name n content now db.files apart)
        (select-upsert_self p.id name content now db.files)

  pub entry-delete_file :
      (slug s name : Bytes) (p : ProjectRow)
      → select_project slug db.projects ≡ some p
      → entry_of (delete_file_rows p.id name db.files) (select_project s db.projects) ≡ (
          if bytes_eq slug s
          then some (
              with_file name none
                (record { row = p; file = λ n. contents (select_file p.id n db.files) }))
          else entry_of db.files (select_project s db.projects))
  entry-delete_file slug s name p found =
      entry-write slug s name none p _ found
        (λ id n apart. select-delete_rows_other p.id id name n db.files apart)
        (ap contents (select-delete_self p.id name db.files))

  pub entry-remove :
      (slug s : Bytes) (p : ProjectRow)
      → select_project slug db.projects ≡ some p
      → entry_of
          (delete_files_of p.id db.files)
          (select_project s (delete_project_row p.id db.projects))
        ≡ (if bytes_eq slug s then none else entry_of db.files (select_project s db.projects))
  entry-remove slug s p found = elim (Bool-cases (bytes_eq slug s)) [
    | inl same ↦
        let e : slug ≡ s = bytes_eq→eq slug s same in
        rw (same, sym e, select-delete_row slug db.projects p v.slugs found)
    | inr ne ↦ elim (Option-cases (select_project s db.projects)) [
      | inl free ↦ rw (ne, select-keep-none _ s db.projects free, free)
      | inr (q, e) ↦
          let apart : (p.id == q.id) ≡ false =
            ids_apart db.next_id db.projects slug s p q v.ids found e ne in
          rw
            (
              ne,
              select-keep (λ r. not (r.id == p.id)) s db.projects q e
                  (ground (arith, apart, ==_iff p.id q.id, ==_iff q.id p.id)),
              e,
            )
            (ap some (
              entry_eq q _ _
                (λ name. ap contents (select-delete_files_other p.id q.id name db.files apart))))
    ]
  ]
