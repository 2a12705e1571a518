-- ===== src/Db/Projects/Tables.antt =====
-- Facts on the table of projects.
use project_tracker.Base.{
  ℕ, suc, ◌<◌, ◌≡◌, refl, Bool, true, false, none, some, List, [], ◌∷◌, ◌++◌, arith, any, keep,
  Bytes, bytes_eq, bytes_eq_iff, Bool-cases, Option-cases, inl, inr, if◌then◌else◌, ◌==◌,
}
use project_tracker.Db.{
  ProjectRow, Database, select_project, get_project_id_unlocked, update_project_row,
  delete_project_row,
}

pub id_of_found :
    (db : Database) (io : Bool) (slug : Bytes) (id : ℕ)
    → get_project_id_unlocked db io slug ≡ some id
    → (row : ProjectRow) × (select_project slug db.projects ≡ some row) × (row.id ≡ id)
unfolding get_project_id_unlocked
id_of_found db io slug id e = elim (Option-cases (select_project slug db.projects)) [
  | inl none_found ↦ absurd (refuse (rw none_found at e))
  | inr (row, found) ↦ (row, found, ground arith)
]
  where
    refuse : ¬ ((if io then none else none) ≡ some id)
    refuse h = ground arith

pub select-slug :
    (slug : Bytes) (ps : List ProjectRow) (row : ProjectRow)
    → select_project slug ps ≡ some row
    → row.slug ≡ slug
unfolding select_project
select-slug slug [] row e = cc
select-slug slug (p ∷ ps) row e = ground (arith, select-slug slug ps row, bytes_eq_iff p.slug slug)

-- Slugs are distinct, as the constraint UNIQUE says.
abbrev pub SlugsDistinct : List ProjectRow → Type 0
SlugsDistinct [] = Unit
SlugsDistinct (p ∷ ps) = (select_project p.slug ps ≡ none) × SlugsDistinct ps

-- So are the keys, which are below the next one to be given.
abbrev pub IdsDistinct : ℕ → List ProjectRow → Type 0
IdsDistinct next [] = Unit
IdsDistinct next (p ∷ ps) =
    (p.id < next) × (any (λ q. q.id == p.id) ps ≡ false) × IdsDistinct next ps

pub select-append :
    (slug : Bytes) (ps : List ProjectRow) (q : ProjectRow)
    → select_project slug ps ≡ none
    → select_project slug (ps ++ q ∷ []) ≡ (if bytes_eq q.slug slug then some q else none)
unfolding select_project
select-append slug [] q e = refl
select-append slug (p ∷ ps) q e = ground (arith, select-append slug ps q)

pub select-append_found :
    (slug : Bytes) (ps : List ProjectRow) (q row : ProjectRow)
    → select_project slug ps ≡ some row
    → select_project slug (ps ++ q ∷ []) ≡ some row
unfolding select_project
select-append_found slug [] q row e = cc
select-append_found slug (p ∷ ps) q row e = ground (arith, select-append_found slug ps q row)

pub SlugsDistinct-append :
    (ps : List ProjectRow) (q : ProjectRow)
    → select_project q.slug ps ≡ none
    → SlugsDistinct ps
    → SlugsDistinct (ps ++ q ∷ [])
unfolding select_project
SlugsDistinct-append [] q e h = (refl, tt)
SlugsDistinct-append (p ∷ ps) q e (h, hs) = (
  ground
      (arith, select-append p.slug ps q h, bytes_eq_iff q.slug p.slug, bytes_eq_iff p.slug q.slug),
  SlugsDistinct-append ps q (ground arith) hs,
)

pub any-append :
    (t : ProjectRow → Bool) (ps : List ProjectRow) (q : ProjectRow)
    → any t ps ≡ true
    → any t (ps ++ q ∷ []) ≡ true
any-append t [] q h = cc
any-append t (p ∷ ps) q h = ground (arith, any-append t ps q)

any-append_false :
    (t : ProjectRow → Bool) (ps : List ProjectRow) (q : ProjectRow)
    → any t ps ≡ false
    → t q ≡ false
    → any t (ps ++ q ∷ []) ≡ false
any-append_false t [] q h k = ground arith
any-append_false t (p ∷ ps) q h k = ground (arith, any-append_false t ps q)

pub IdsDistinct-append :
    (next : ℕ) (ps : List ProjectRow) (q : ProjectRow)
    → q.id ≡ next
    → IdsDistinct next ps
    → IdsDistinct (suc next) (ps ++ q ∷ [])
IdsDistinct-append next [] q e h = (omega arith, refl, tt)
IdsDistinct-append next (p ∷ ps) q e (below, h, hs) = (
  omega arith,
  any-append_false (λ r. r.id == p.id) ps q h (ground arith),
  IdsDistinct-append next ps q e hs,
)

-- A change of rows that keeps slugs and ids.
module _ (slug : Bytes) (change : ProjectRow → ProjectRow)
    (same_slug : (p : ProjectRow) → (change p).slug ≡ p.slug)
    (same_id : (p : ProjectRow) → (change p).id ≡ p.id) where
  pub select-update_none :
      (s : Bytes) (ps : List ProjectRow)
      → select_project s ps ≡ none
      → select_project s (update_project_row slug change ps) ≡ none
  unfolding select_project update_project_row
  select-update_none s [] e = refl
  select-update_none s (p ∷ ps) e = ground (arith, select-update_none s ps, same_slug p)

  pub any-update :
      (id : ℕ) (ps : List ProjectRow)
      → any (λ p. p.id == id) (update_project_row slug change ps) ≡ any (λ p. p.id == id) ps
  unfolding update_project_row
  any-update id [] = refl
  any-update id (p ∷ ps) = ground (arith, any-update id ps, same_id p)

  pub SlugsDistinct-update :
      (ps : List ProjectRow) → SlugsDistinct ps → SlugsDistinct (update_project_row slug change ps)
  unfolding update_project_row
  SlugsDistinct-update [] h = tt
  SlugsDistinct-update (p ∷ ps) (h, hs) =
      ground (arith, select-update_none p.slug ps h, same_slug p, SlugsDistinct-update ps hs)

  pub IdsDistinct-update :
      (next : ℕ) (ps : List ProjectRow)
      → IdsDistinct next ps
      → IdsDistinct next (update_project_row slug change ps)
  unfolding update_project_row
  IdsDistinct-update next [] h = tt
  IdsDistinct-update next (p ∷ ps) (below, h, hs) =
      ground (arith, any-update p.id ps, same_id p, IdsDistinct-update next ps hs)

-- Rows that are deleted.
pub select-keep-none :
    (t : ProjectRow → Bool) (s : Bytes) (ps : List ProjectRow)
    → select_project s ps ≡ none
    → select_project s (keep t ps) ≡ none
unfolding select_project
select-keep-none t s [] e = refl
select-keep-none t s (p ∷ ps) e = ground (arith, select-keep-none t s ps)

pub any-keep-false :
    (t u : ProjectRow → Bool) (ps : List ProjectRow) → any u ps ≡ false → any u (keep t ps) ≡ false
any-keep-false t u [] e = refl
any-keep-false t u (p ∷ ps) e = ground (arith, any-keep-false t u ps)

pub SlugsDistinct-keep :
    (t : ProjectRow → Bool) (ps : List ProjectRow) → SlugsDistinct ps → SlugsDistinct (keep t ps)
SlugsDistinct-keep t [] h = tt
SlugsDistinct-keep t (p ∷ ps) (h, hs) =
    ground (arith, select-keep-none t p.slug ps h, SlugsDistinct-keep t ps hs)

pub IdsDistinct-keep :
    (next : ℕ) (t : ProjectRow → Bool) (ps : List ProjectRow)
    → IdsDistinct next ps
    → IdsDistinct next (keep t ps)
IdsDistinct-keep next t [] h = tt
IdsDistinct-keep next t (p ∷ ps) (below, h, hs) =
    ground (arith, any-keep-false t (λ q. q.id == p.id) ps h, IdsDistinct-keep next t ps hs)

-- Another project than the one deleted stays.
pub any-delete_other :
    (id other : ℕ) (ps : List ProjectRow)
    → (other == id) ≡ false
    → any (λ p. p.id == other) ps ≡ true
    → any (λ p. p.id == other) (delete_project_row id ps) ≡ true
any-delete_other id other [] n h = cc
any-delete_other id other (p ∷ ps) n h = ground (arith, any-delete_other id other ps n)

pub any_of_select :
    (slug : Bytes) (ps : List ProjectRow) (row : ProjectRow)
    → select_project slug ps ≡ some row
    → any (λ p. p.id == row.id) ps ≡ true
unfolding select_project
any_of_select slug [] row e = cc
any_of_select slug (p ∷ ps) row e = elim (Bool-cases (bytes_eq p.slug slug)) [
  | inl f ↦ let same : p ≡ row = ground arith in rw same (ground arith)
  | inr f ↦ ground (arith, any_of_select slug ps row (ground arith))
]
