-- ===== src/Db/Store/Selects.antt =====
-- What the tables give under a slug and under a name, before and after a write.
use project_tracker.Base.{
  ℕ, ◌≡◌, refl, sym, Bool, true, false, not, ◌&&◌, Option, none, some, List, [], ◌∷◌, arith, any,
  keep, All, Bytes, bytes_eq, bytes_eq_iff, bytes_eq→eq, Bool-cases, inl, inr, if◌then◌else◌, ◌==◌,
  ==_iff,
}
use project_tracker.Db.{
  ProjectRow, FileRow, select_project, select_file, update_project_row, delete_project_row,
  delete_files_of, delete_file_rows,
}
use project_tracker.Db.Projects.Tables.{IdsDistinct, SlugsDistinct, any_of_select, select-keep-none}
use project_tracker.Db.Files.Tables.{IsOwned}

abbrev pub changed : (ProjectRow → ProjectRow) → Option ProjectRow → Option ProjectRow
changed f none = none
changed f (some p) = some (f p)

pub select-update :
    (slug s : Bytes) (change : ProjectRow → ProjectRow) (ps : List ProjectRow)
    → ((p : ProjectRow) → (change p).slug ≡ p.slug)
    → select_project s (update_project_row slug change ps)
      ≡ (if bytes_eq slug s then changed change (select_project s ps) else select_project s ps)
unfolding select_project update_project_row
select-update slug s change [] same = ground arith
select-update slug s change (p ∷ ps) same = ground (
  arith,
  select-update slug s change ps same,
  same p,
  bytes_eq_iff p.slug slug,
  bytes_eq_iff p.slug s,
  bytes_eq_iff slug s,
)

pub select-keep :
    (t : ProjectRow → Bool) (s : Bytes) (ps : List ProjectRow) (p : ProjectRow)
    → select_project s ps ≡ some p
    → t p ≡ true
    → select_project s (keep t ps) ≡ some p
unfolding select_project
select-keep t s [] p e h = cc
select-keep t s (q ∷ ps) p e h = elim (Bool-cases (bytes_eq q.slug s)) [
  | inl f ↦ let same : q ≡ p = ground arith in rw same (ground arith)
  | inr f ↦ ground (arith, select-keep t s ps p (ground arith) h)
]

-- Projects under different slugs have different keys.
pub ids_apart :
    (next : ℕ) (ps : List ProjectRow) (s s' : Bytes) (p p' : ProjectRow)
    → IdsDistinct next ps
    → select_project s ps ≡ some p
    → select_project s' ps ≡ some p'
    → bytes_eq s s' ≡ false
    → (p.id == p'.id) ≡ false
unfolding select_project
ids_apart next [] s s' p p' d e e' n = cc
ids_apart next (q ∷ ps) s s' p p' (below, fresh, d) e e' n = ground (
  arith,
  ids_apart next ps s s' p p' d,
  any_of_select s ps p,
  any_of_select s' ps p',
  bytes_eq_iff q.slug s,
  bytes_eq_iff q.slug s',
  bytes_eq_iff s s',
  ==_iff p.id p'.id,
)

pub next_is_fresh :
    (next : ℕ) (ps : List ProjectRow) → IdsDistinct next ps → any (λ p. p.id == next) ps ≡ false
next_is_fresh next [] d = refl
next_is_fresh next (p ∷ ps) (below, fresh, d) = ground (arith, next_is_fresh next ps d)

-- A project that is not there has no files.
pub select_file-unowned :
    (ps : List ProjectRow) (id : ℕ) (name : Bytes) (fs : List FileRow)
    → All (IsOwned ps) fs
    → any (λ p. p.id == id) ps ≡ false
    → select_file id name fs ≡ none
unfolding select_file
select_file-unowned ps id name [] h n = refl
select_file-unowned ps id name (f ∷ fs) (o, h) n = elim (Bool-cases (f.project_id == id)) [
  | inl e ↦
      let same : f.project_id ≡ id = ground arith in
      let owned : any (λ p. p.id == id) ps ≡ true = rw same at o in absurd cc
  | inr e ↦ ground (arith, select_file-unowned ps id name fs h n)
]

pub select-delete_files_other :
    (id id' : ℕ) (name : Bytes) (fs : List FileRow)
    → (id == id') ≡ false
    → select_file id' name (delete_files_of id fs) ≡ select_file id' name fs
unfolding select_file
select-delete_files_other id id' name [] n = refl
select-delete_files_other id id' name (f ∷ fs) n =
    ground (arith, select-delete_files_other id id' name fs n)

pub select-delete_rows_other :
    (id id' : ℕ) (name name' : Bytes) (fs : List FileRow)
    → ((id == id') && bytes_eq name name') ≡ false
    → select_file id' name' (delete_file_rows id name fs) ≡ select_file id' name' fs
unfolding select_file
select-delete_rows_other id id' name name' [] n = refl
select-delete_rows_other id id' name name' (f ∷ fs) n = ground (
  arith,
  select-delete_rows_other id id' name name' fs n,
  bytes_eq_iff f.filename name,
  bytes_eq_iff f.filename name',
  bytes_eq_iff name name',
)

-- After its row is deleted, a slug is free.
pub select-delete_row :
    (slug : Bytes) (ps : List ProjectRow) (p : ProjectRow)
    → SlugsDistinct ps
    → select_project slug ps ≡ some p
    → select_project slug (delete_project_row p.id ps) ≡ none
unfolding select_project
select-delete_row slug [] p d e = refl
select-delete_row slug (q ∷ ps) p (fresh, d) e = elim (Bool-cases (bytes_eq q.slug slug)) [
  | inl same ↦
      let eq : q ≡ p = ground arith in
      let at : q.slug ≡ slug = bytes_eq→eq q.slug slug same in
      let gone : select_project slug ps ≡ none = rw (sym at) fresh in
      rw (sym eq) (ground (arith, select-keep-none (λ r. not (r.id == q.id)) slug ps gone))
  | inr other ↦ ground (arith, select-delete_row slug ps p d)
]
