-- ===== src/Db/Projects/Listing.antt =====
-- The listing of projects: what it holds, and its pages.
use mathlib.Core.List.{Perm}
use mathlib.Core.List.Perm
use mathlib.Core.Path.{fun_ext}
use project_tracker.Base.{
  ℕ, zero, suc, ◌+◌, ◌<◌, ◌≡◌, refl, sym, ◌∙◌, ap, subst, Bool, true, not, ◌&&◌, List, [], ◌∷◌,
  ◌++◌, map, arith, if◌then◌else◌, is_empty, keep, take, drop, Bytes, bytes_eq, codes, ℤ, pos,
}
use project_tracker.Db.{finishes, read_rows, ProjectRow, Database, Sql, SqlLaws}
use project_tracker.Db.Projects.{get_all, list_entry, matches_search, matches_status, limited}

-- What a listing is to hold: under "all" every project, under another status those that have it,
-- and without one all but the archived.
abbrev pub is_wanted : (status : Bytes) → ProjectRow → Bool
is_wanted status p =
    if bytes_eq status (codes "all")
    then true
    else if is_empty status
    then not (bytes_eq p.status (codes "archived"))
    else bytes_eq p.status status

map-append : {A B : Type 0} (f : A → B) (xs ys : List A) → map f (xs ++ ys) ≡ map f xs ++ map f ys
map-append f [] ys = refl
map-append f (x ∷ xs) ys = ap (λ zs. f x ∷ zs) (map-append f xs ys)

take-nil : {A : Type 0} (k : ℕ) → ◌≡◌ {A = List A} (take k []) []
take-nil zero = refl
take-nil (suc k) = refl

drop-nil : {A : Type 0} (k : ℕ) → ◌≡◌ {A = List A} (drop k []) []
drop-nil zero = refl
drop-nil (suc k) = refl

nothing :
    {A : Type 0} (n k m : ℕ)
    → ◌≡◌ {A = List A} (take n (drop m []) ++ take k (drop (m + n) [])) (take (n + k) (drop m []))
nothing {A} n k m = simp (
  drop-nil {A = A} m,
  drop-nil {A = A} (m + n),
  take-nil {A = A} n,
  take-nil {A = A} k,
  take-nil {A = A} (n + k),
)

-- A piece of a list, and the piece behind it.
take-append-take :
    {A : Type 0} (n k m : ℕ) (xs : List A)
    → take n (drop m xs) ++ take k (drop (m + n) xs) ≡ take (n + k) (drop m xs)
take-append-take zero k zero xs = let e : k ≡ 0 + k = omega arith in ap (λ j. take j xs) e
take-append-take (suc n) k m [] = nothing (suc n) k m
take-append-take zero k (suc m) [] = nothing zero k (suc m)
take-append-take (suc n) k zero (x ∷ xs) =
    let e : 0 + suc n ≡ suc (0 + n) = omega arith in
    let f : suc (n + k) ≡ suc n + k = omega arith in
    ap (λ j. x ∷ (take n xs ++ take k (drop j (x ∷ xs)))) e
    ∙ (ap (λ ys. x ∷ ys) (take-append-take n k zero xs) ∙ ap (λ j. take j (x ∷ xs)) f)
take-append-take n k (suc m) (x ∷ xs) =
    let e : suc m + n ≡ suc (m + n) = omega arith in
    ap (λ j. take n (drop m xs) ++ take k (drop j (x ∷ xs))) e ∙ take-append-take n k m xs

limited-page :
    (sql : Sql) (n m : ℕ) (rows : List ProjectRow)
    → 0 < n
    → limited sql (pos n) (pos m) rows ≡ take n (drop m rows)
limited-page sql n m rows h = ground arith

module _ (sql : Sql) (db : Database) (search status : Bytes) where
  matches : ProjectRow → Bool
  matches p = matches_search sql search p && matches_status sql status p

  matches-is_wanted :
      (p : ProjectRow) → matches p ≡ (matches_search sql search p && is_wanted status p)
  unfolding matches
  matches-is_wanted p = ground arith

  -- A listing without a limit holds each project that matches the search and is wanted under the
  -- status, once, if SQLite goes through with the query and orders the rows without losing or repeating any.
  pub get_all-keep :
      (offset : ℤ)
      → SqlLaws sql
      → Perm (get_all sql db finishes search status (pos 0) offset) (
          map
            (list_entry sql db)
            (keep (λ p. matches_search sql search p && is_wanted status p) db.projects))
  unfolding get_all matches read_rows
  get_all-keep offset laws =
      subst
        (λ t.
          Perm (map (list_entry sql db) (sql.by_updated_at (keep matches db.projects)))
            (map (list_entry sql db) (keep t db.projects)))
        (fun_ext matches-is_wanted)
        (mathlib.Core.List.Perm.map (list_entry sql db) (laws.by_updated_at_perm _))

  -- Two pages of a listing, the second right behind the first and neither of length 0, are together
  -- the page of both lengths.
  pub get_all-pages :
      (n k m : ℕ)
      → 0 < n
      → 0 < k
      → get_all sql db finishes search status (pos n) (pos m)
          ++ get_all sql db finishes search status (pos k) (pos (m + n))
        ≡ get_all sql db finishes search status (pos (n + k)) (pos m)
  unfolding get_all matches read_rows
  get_all-pages n k m h g =
      let rows = sql.by_updated_at (keep matches db.projects) in
      rw
        (
          limited-page sql n m rows h,
          limited-page sql k (m + n) rows g,
          limited-page sql (n + k) m rows (omega arith),
        )
        (sym (map-append (list_entry sql db) _ _)
          ∙ ap (map (list_entry sql db)) (take-append-take n k m rows))
