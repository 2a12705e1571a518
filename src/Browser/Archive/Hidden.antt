-- ===== src/Browser/Archive/Hidden.antt =====
-- Which projects the list shows after an archiving.
use mathlib.Core.List.{Mem, not-mem-nil, forall_mem-cons}
use mathlib.Core.List.Perm
use project_tracker.Base.{
  ◌≡◌, ◌≢◌, refl, sym, ◌∙◌, Bool, true, false, not, ◌&&◌, some, List, [], ◌∷◌, map, arith, All,
  All-take, keep, if_cases, if◌then◌else◌, is_empty, subst, Bool-cases, inl, inr, Bytes, bytes_eq,
  bytes_eq_iff, codes, pos,
}
use project_tracker.Json.{string_at, at, find_field}
use project_tracker.Models.{Project}
use project_tracker.Db.{
  Reading, finishes, throws_after, read_rows, ProjectRow, Database, Sql, SqlLaws, select_project,
  update_project_row,
}
use project_tracker.Db.Projects.{
  update, changed_row, get_field, list_entry, matches_search, get_all,
}
use project_tracker.Db.Projects.Listing.{is_wanted, get_all-keep}
use project_tracker.Browser.Archive.{new_status, archive_body, list_status}

all_of :
    {A : Type 0} (P : A → Type 0) (xs : List A)
    → ((x : A) → IsProp (P x))
    → All P xs
    → (x : A) → Mem x xs
    → P x
all_of P [] prop h = λ x m. absurd (not-mem-nil m)
all_of P (y ∷ xs) prop (p, h) = (forall_mem-cons prop).1 (p, all_of P xs prop h)

-- A row under the slug is archived.
abbrev ArchivedAt : Bytes → ProjectRow → Type 0
ArchivedAt slug p = bytes_eq p.slug slug ≡ true → p.status ≡ codes "archived"

archives : (status : Bytes) → status ≢ codes "archived" → new_status status ≡ codes "archived"
unfolding new_status
archives status other = ground (arith, bytes_eq_iff status (codes "archived"))

changed_status :
    (status now : Bytes) (p : ProjectRow)
    → (changed_row (archive_body status) now p).status ≡ new_status status
unfolding changed_row get_field archive_body new_status string_at at find_field bytes_eq
changed_status status now p =
    if_cases (λ t. (if is_empty t then p.status else t) ≡ t) (bytes_eq status (codes "archived")) _
      _ (λ _. refl) (λ _. refl)

update-ArchivedAt :
    (slug status now : Bytes) (ps : List ProjectRow)
    → new_status status ≡ codes "archived"
    → All (ArchivedAt slug) (update_project_row slug (changed_row (archive_body status) now) ps)
unfolding update_project_row
update-ArchivedAt slug status now [] e = tt
update-ArchivedAt slug status now (p ∷ ps) e = (
  if_cases (ArchivedAt slug) (bytes_eq p.slug slug) _ _ (λ _ _. changed_status status now p ∙ e)
      (λ n k. absurd cc),
  update-ArchivedAt slug status now ps e,
)

All-keep_where :
    (t : ProjectRow → Bool) (P : ProjectRow → Type 0) (ps : List ProjectRow)
    → All (λ p. t p ≡ true → P p) ps
    → All P (keep t ps)
All-keep_where t P [] h = tt
All-keep_where t P (p ∷ ps) (k, h) = elim (Bool-cases (t p)) [
  | inl e ↦ rw (e, keep) (k e, All-keep_where t P ps h)
  | inr e ↦ rw (e, keep) (All-keep_where t P ps h)
]

-- Such a row is not listed unless archived projects are asked for.
listed_other :
    (sql : Sql) (search slug : Bytes) (ps : List ProjectRow)
    → All (ArchivedAt slug) ps
    → All (λ p. (matches_search sql search p && is_wanted [] p) ≡ true → p.slug ≢ slug) ps
unfolding bytes_eq
listed_other sql search slug [] h = tt
listed_other sql search slug (p ∷ ps) (a, h) = (
  λ listed same.
      let archived : p.status ≡ codes "archived" =
        a (ground (arith, same, bytes_eq_iff p.slug slug)) in
      let no : (not (bytes_eq p.status (codes "archived"))) ≡ true = ground arith in
      let yes_archived : bytes_eq p.status (codes "archived") ≡ true = rw archived refl in
      absurd (ground arith),
  listed_other sql search slug ps h,
)

All-map_entry :
    (sql : Sql) (db : Database) (slug : Bytes) (ps : List ProjectRow)
    → All (λ p. p.slug ≢ slug) ps
    → All (λ (p : Project). p.slug ≢ slug) (map (list_entry sql db) ps)
unfolding list_entry
All-map_entry sql db slug [] h = tt
All-map_entry sql db slug (p ∷ ps) (k, h) = (k, All-map_entry sql db slug ps h)

update_after :
    (db : Database) (slug : Bytes) (status now : Bytes) (row : ProjectRow)
    → select_project slug db.projects ≡ some row
    → (update db true slug (archive_body status) now).0 ≡ record db {
      projects = update_project_row slug (changed_row (archive_body status) now) db.projects;
    }
unfolding update
update_after db slug status now row found = rw (found, update)

each_in :
    {A : Type 0} (P : A → Type 0) (xs : List A)
    → ((x : A) → IsProp (P x))
    → ((x : A) → Mem x xs → P x)
    → All P xs
each_in P [] prop h = tt
each_in P (y ∷ xs) prop h =
    let (first, others) = (forall_mem-cons prop).0 h in (first, each_in P xs prop others)

All-read_rows :
    (P : Project → Type 0) (reading : Reading) (xs : List Project)
    → All P xs
    → All P (read_rows reading xs)
unfolding read_rows
All-read_rows P finishes xs h = h
All-read_rows P (throws_after n) xs h = All-take P n xs h

hidden_when_finished :
    (sql : Sql) (db : Database) (slug now search : Bytes) (row : ProjectRow)
    → SqlLaws sql
    → select_project slug db.projects ≡ some row
    → row.status ≢ codes "archived"
    → (p : Project)
    → Mem p (
        get_all sql
          (update db true slug (archive_body row.status) now).0
          finishes
          search
          (list_status false)
          (pos 0)
          (pos 0))
    → p.slug ≢ slug
hidden_when_finished sql db slug now search row laws found other p listed =
    let after = (update db true slug (archive_body row.status) now).0 in
    let hides = archives row.status other in
    all_of (λ (q : Project). q.slug ≢ slug)
      (map (list_entry sql after)
        (keep (λ q. matches_search sql search q && is_wanted [] q) after.projects))
      (λ q. hlevel)
      (All-map_entry sql after slug _ (
        All-keep_where _ _ after.projects (
          listed_other sql search slug after.projects (
            subst (λ (d : Database). All (ArchivedAt slug) d.projects)
              (sym (update_after db slug row.status now row found))
              (update-ArchivedAt slug row.status now db.projects hides)))))
      p ((Perm.mem_iff (get_all-keep sql after search [] (pos 0) laws)).0 listed)

-- To archive a project hides it. The PUT that the button sends for a project with another status
-- than "archived", where it is carried out, leaves no project with that slug in the list that a page
-- loads without the archived projects, whatever it searches for, and also if SQLite throws behind
-- some of the rows. SQLite orders the rows without adding any.
pub get_all-archive_body :
    (sql : Sql) (db : Database) (slug now search : Bytes) (row : ProjectRow) (reading : Reading)
    → SqlLaws sql
    → select_project slug db.projects ≡ some row
    → row.status ≢ codes "archived"
    → (p : Project)
    → Mem p (
        get_all sql
          (update db true slug (archive_body row.status) now).0
          reading
          search
          (list_status false)
          (pos 0)
          (pos 0))
    → p.slug ≢ slug
unfolding get_all read_rows
get_all-archive_body sql db slug now search row reading laws found other p listed =
    let hidden = hidden_when_finished sql db slug now search row laws found other in
    all_of (λ (q : Project). q.slug ≢ slug) _ (λ q. hlevel)
      (All-read_rows (λ (q : Project). q.slug ≢ slug) reading _
        (each_in (λ (q : Project). q.slug ≢ slug) _ (λ q. hlevel) hidden))
      p listed
