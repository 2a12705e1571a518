-- ===== src/Db/Projects/Listed.antt =====
-- What the listing of projects holds, said without the query.
use mathlib.Core.List.{Perm}
use mathlib.Core.Path.{fun_ext}
use project_tracker.Base.{
  ℕ, suc, ◌≡◌, ◌≢◌, ◌⊎◌, inl, inr, refl, ap, subst, Bool, true, ◌&&◌, List, [], ◌∷◌, ◌++◌, map,
  arith, if◌then◌else◌, keep, length, Bytes, bytes_eq, bytes_eq_iff, codes, ℤ, pos, Bool-cases,
  ◌==◌,
}
use project_tracker.Models.{Project}
use project_tracker.Db.{finishes, FileRow, ProjectRow, Database, Sql, SqlLaws}
use project_tracker.Db.Projects.{get_all, list_entry, matches_search}
use project_tracker.Db.Projects.Listing.{is_wanted, get_all-keep}

-- `rows` are the rows of the table with this property, in the table's order.
abbrev pub Selects : (P : ProjectRow → Type 0) → (table rows : List ProjectRow) → Type 0
Selects P [] rows = rows ≡ []
Selects P (p ∷ ps) rows =
    (P p × ((rest : List ProjectRow) × (rows ≡ p ∷ rest) × Selects P ps rest))
    ⊎ ((¬ P p) × Selects P ps rows)

Selects-keep :
    (P : ProjectRow → Type 0) (t : ProjectRow → Bool) (ps : List ProjectRow)
    → ((p : ProjectRow) → (t p ≡ true → P p) × (P p → t p ≡ true))
    → Selects P ps (keep t ps)
Selects-keep P t [] h = refl
Selects-keep P t (p ∷ ps) h = elim (Bool-cases (t p)) [
  | inl e ↦ rw (e, keep) (inl ((h p).0 e, (keep t ps, refl, Selects-keep P t ps h)))
  | inr e ↦ rw (e, keep) (inr (λ w. cc (e, (h p).1 w), Selects-keep P t ps h))
]

-- The files of a project.
abbrev pub count_files : (id : ℕ) → List FileRow → ℕ
count_files id [] = 0
count_files id (f ∷ fs) =
    let rest = count_files id fs in if f.project_id == id then suc rest else rest

length-file_rows :
    (id : ℕ) (fs : List FileRow) → length (keep (λ f. f.project_id == id) fs) ≡ count_files id fs
length-file_rows id [] = refl
length-file_rows id (f ∷ fs) = elim (Bool-cases (f.project_id == id)) [
  | inl e ↦ rw (e, keep) (ap suc (length-file_rows id fs))
  | inr e ↦ rw (e, keep) (length-file_rows id fs)
]

-- The entry of a row: its fields, with the number of the project's files and none of them.
abbrev pub shown_entry : Database → ProjectRow → Project
shown_entry db p = record {
  id = p.id;
  slug = p.slug;
  name = p.name;
  status = p.status;
  priority = p.priority;
  tags = p.tags;
  description = p.description;
  repo_path = p.repo_path;
  created_at = p.created_at;
  updated_at = p.updated_at;
  file_count = count_files p.id db.files;
  files = [];
}

module _ (sql : Sql) where
  list_entry-shown : (db : Database) (p : ProjectRow) → list_entry sql db p ≡ shown_entry db p
  unfolding list_entry
  list_entry-shown db p =
      λ i. record (shown_entry db p) { file_count = length-file_rows p.id db.files i }

  -- The text that is searched for stands in the field, as LIKE understands it.
  abbrev Holds : (search field : Bytes) → Type 0
  Holds search field = sql.like (codes "%" ++ (search ++ codes "%")) field ≡ true

  -- The row is searched for: by no text, or by one that one of four fields holds.
  abbrev pub IsFound : (search : Bytes) → ProjectRow → Type 0
  IsFound search p =
      (search ≡ [])
      ⊎ Holds search p.slug
      ⊎ Holds search p.name
      ⊎ Holds search p.tags
      ⊎ Holds search p.description

  matches_search→IsFound :
      (search : Bytes) (p : ProjectRow) → matches_search sql search p ≡ true → IsFound search p
  matches_search→IsFound [] p h = inl refl
  matches_search→IsFound (c ∷ s) p h =
      let like = sql.like (codes "%" ++ ((c ∷ s) ++ codes "%")) in
      elim (Bool-cases (like p.slug)) [
        | inl e ↦ inr (inl e)
        | inr e ↦ elim (Bool-cases (like p.name)) [
          | inl f ↦ inr (inr (inl f))
          | inr f ↦ elim (Bool-cases (like p.tags)) [
            | inl g ↦ inr (inr (inr (inl g)))
            | inr g ↦ inr (inr (inr (inr (ground arith))))
          ]
        ]
      ]

  matches_search_of_found :
      (search : Bytes) (p : ProjectRow) → IsFound search p → matches_search sql search p ≡ true
  matches_search_of_found [] p h = refl
  matches_search_of_found (c ∷ s) p (inl e) = absurd cc
  matches_search_of_found (c ∷ s) p (inr (inl e)) = ground arith
  matches_search_of_found (c ∷ s) p (inr (inr (inl e))) = ground arith
  matches_search_of_found (c ∷ s) p (inr (inr (inr (inl e)))) = ground arith
  matches_search_of_found (c ∷ s) p (inr (inr (inr (inr e)))) = ground arith

  -- The status that is asked for: "all", none, which leaves out the archived, or the row's own.
  abbrev pub HasStatus : (status : Bytes) → ProjectRow → Type 0
  HasStatus status p =
      (status ≡ codes "all")
      ⊎ ((status ≡ []) × (p.status ≢ codes "archived"))
      ⊎ ((status ≢ []) × (p.status ≡ status))

  is_wanted→HasStatus :
      (status : Bytes) (p : ProjectRow) → is_wanted status p ≡ true → HasStatus status p
  unfolding bytes_eq
  is_wanted→HasStatus [] p h =
      inr (inl (refl, λ e. ground (arith, bytes_eq_iff p.status (codes "archived"))))
  is_wanted→HasStatus (c ∷ s) p h = elim (Bool-cases (bytes_eq (c ∷ s) (codes "all"))) [
    | inl e ↦ inl ((bytes_eq_iff (c ∷ s) (codes "all")).0 e)
    | inr e ↦ inr (inr (λ k. cc, ground (arith, bytes_eq_iff p.status (c ∷ s))))
  ]

  is_wanted_of_status :
      (status : Bytes) (p : ProjectRow) → HasStatus status p → is_wanted status p ≡ true
  unfolding bytes_eq
  is_wanted_of_status status p (inl e) = ground (arith, bytes_eq_iff status (codes "all"))
  is_wanted_of_status [] p (inr (inl (e, n))) =
      ground (arith, n, bytes_eq_iff p.status (codes "archived"))
  is_wanted_of_status (c ∷ s) p (inr (inl (e, n))) = absurd cc
  is_wanted_of_status [] p (inr (inr (n, e))) = absurd (n refl)
  is_wanted_of_status (c ∷ s) p (inr (inr (n, e))) = ground (arith, bytes_eq_iff p.status (c ∷ s))

  -- What a listing is asked for.
  abbrev pub IsListed : (search status : Bytes) → ProjectRow → Type 0
  IsListed search status p = IsFound search p × HasStatus status p

  -- A listing without a limit that SQLite goes through with holds, in some order, whatever the
  -- offset, an entry for each row that is asked for and no other: the search is empty or LIKE finds
  -- "%search%" in the row's slug, name, tags or description; and the status that is asked for is
  -- "all", or empty and the row is not archived, or the row's own. An entry has the fields of its row,
  -- the number of the project's files, and none of the files. The orders of SQLite neither lose nor
  -- repeat rows.
  pub get_all-Perm :
      (db : Database) (search status : Bytes) (offset : ℤ)
      → SqlLaws sql
      → (rows : List ProjectRow) × Selects (IsListed search status) db.projects rows
        × Perm (get_all sql db finishes search status (pos 0) offset) (map (shown_entry db) rows)
  get_all-Perm db search status offset laws =
      let t = λ (p : ProjectRow). matches_search sql search p && is_wanted status p in
      (
        keep t db.projects,
        Selects-keep (IsListed search status) t db.projects (λ p. (
          λ e. (
            matches_search→IsFound search p (ground arith),
            is_wanted→HasStatus status p (ground arith),
          ),
          λ (f, s).
              ground (arith, matches_search_of_found search p f, is_wanted_of_status status p s),
        )),
        subst
            (λ g.
              Perm (get_all sql db finishes search status (pos 0) offset)
                (map g (keep t db.projects)))
            (fun_ext (list_entry-shown db)) (get_all-keep sql db search status offset laws),
      )
