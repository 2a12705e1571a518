-- ===== src/Browser/Editor/Spares.antt =====
-- The new files of a page on the server that the page belongs to.
use project_tracker.Base.{
  ℕ, ◌≤◌, ◌<◌, ◌≡◌, ◌⊎◌, inl, inr, refl, sym, ◌∙◌, ap, subst, true, false, ◌||◌, Option, some, [],
  ◌∷◌, if_cases, Bool-cases, is_empty, if◌then◌else◌, Bytes, codes,
}
use project_tracker.Text.{contains_byte}
use project_tracker.Sanitizer.{is_valid_slug}
use project_tracker.Db.Files.{get_file}
use project_tracker.Db.Files.Laws.{all_through}
use project_tracker.Http.{Request, Response, json_error}
use project_tracker.Routes.{JsonText, Server}
use project_tracker.Routes.FileRoutes.{read_route, file_answer, range_answer, is_given, is_bad_name}
use project_tracker.Browser.{api, is_missing}
use project_tracker.Browser.Editor.{
  Editor, Outcome, puts, free_name, try_name, or_same, resolve_conflict, do_create_file, heading,
  create_file, create_in, create_named, asks_back, with_extension, js_trim,
}
use project_tracker.Browser.Editor.Copies.{free_name-IsCopy}

valid_some : (slug : Bytes) → is_valid_slug slug ≡ true → is_empty slug ≡ false
unfolding is_valid_slug
valid_some [] h = cc
valid_some (c ∷ s) h = refl

code-file_answer :
    (print : ℕ → Bytes) (req : Request) (content : Bytes)
    → (file_answer print req content).code ≡ 200
unfolding file_answer range_answer
code-file_answer print req content =
    if_cases (λ (r : Response). r.code ≡ 200)
      (is_given (req.param (codes "from")) || is_given (req.param (codes "to"))) _ _ (λ _. refl)
      (λ _. refl)

missing-ok : (res : Response) → res.code ≡ 200 → is_missing (api (some res)) ≡ false
unfolding api
missing-ok res e = rw (api, e, is_missing)

missing-not_found : (res : Response) → res.code ≡ 404 → is_missing (api (some res)) ≡ true
unfolding api
missing-not_found res e = rw (api, e, is_missing)

-- A name that gets to the route as it is, and that the route reads at all.
abbrev pub IsReadable : (routed : Bytes → Bytes) → Bytes → Type 0
IsReadable routed name =
    (routed name ≡ name) × ((is_bad_name name || contains_byte name b'/') ≡ false)

-- `routed` is what the route of the server gets for a name that the page writes into a URL as it is:
-- the browser's reading of that URL and Crow's routing.
module _ (lib : JsonText) (print : ℕ → Bytes) (routed : Bytes → Bytes) (srv : Server)
    (read : Request) (slug : Bytes) where
  -- The server's answer to the GET of a file.
  abbrev pub asked : Bytes → Option Response
  asked name = some (read_route lib print srv read slug (routed name) all_through)

  code-read_route :
      (name : Bytes)
      → is_valid_slug slug ≡ true
      → (is_bad_name name || contains_byte name b'/') ≡ false
      → is_empty (get_file srv.db all_through slug name) ≡ false
      → (read_route lib print srv read slug name all_through).code ≡ 200
  unfolding read_route
  code-read_route name valid readable e =
      rw (valid, readable, e) (code-file_answer print read (get_file srv.db all_through slug name))

  code-read_route_empty :
      (name : Bytes)
      → is_valid_slug slug ≡ true
      → (is_bad_name name || contains_byte name b'/') ≡ false
      → is_empty (get_file srv.db all_through slug name) ≡ true
      → (read_route lib print srv read slug name all_through).code ≡ 404
  unfolding read_route json_error
  code-read_route_empty name valid readable e = rw (valid, readable, e)

  -- A file is missing for the page if it has no content.
  missing-asked :
      (name : Bytes)
      → is_valid_slug slug ≡ true
      → IsReadable routed name
      → is_missing (api (asked name)) ≡ is_empty (get_file srv.db all_through slug name)
  missing-asked name valid (kept, readable) =
      rw kept elim (Bool-cases (is_empty (get_file srv.db all_through slug name))) [
        | inl e ↦ missing-not_found _ (code-read_route_empty name valid readable e) ∙ sym e
        | inr e ↦ missing-ok _ (code-read_route name valid readable e) ∙ sym e
      ]

  -- The outcome of a copy: the name has no content yet, or all copies from 2 to 99 have some, and the
  -- name is that of the file itself.
  abbrev pub Spares : Bytes → Outcome → Type 0
  Spares name outcome =
      (chosen : Bytes) × (outcome ≡ puts chosen (heading chosen))
      × ((is_empty (get_file srv.db all_through slug chosen) ≡ true)
          ⊎ ((chosen ≡ name)
              × ((k : ℕ)
                  → 2 ≤ k
                  → k < 100
                  → is_empty (get_file srv.db all_through slug (try_name print asked name k))
                    ≡ false)))

  resolve_conflict-Spares :
      (e : Editor) (name : Bytes)
      → e.pending_file_name ≡ some name
      → is_valid_slug slug ≡ true
      → ((k : ℕ) → 2 ≤ k → k < 100 → IsReadable routed (try_name print asked name k))
      → Spares name (resolve_conflict print asked e true).1
  unfolding resolve_conflict do_create_file
  resolve_conflict-Spares e name pending valid readable = (
    or_same print asked (free_name print asked name 2 98) name,
    rw pending,
    elim (free_name-IsCopy print asked name) [
      | inl (k, low, high, same, is_free, before) ↦ inl (
          sym (missing-asked _ valid (subst (IsReadable routed) (sym same) (readable k low high)))
          ∙ is_free)
      | inr (same, taken) ↦
          inr (
            same,
            λ k low high. sym (missing-asked _ valid (readable k low high)) ∙ taken k low high,
          )
    ],
  )

  create_file_named :
      (e : Editor) (typed : Bytes)
      → e.current_slug ≡ some slug
      → is_valid_slug slug ≡ true
      → is_empty (js_trim typed) ≡ false
      → create_file asked e typed ≡ create_named asked e (with_extension (js_trim typed))
  unfolding create_file create_in
  create_file_named e typed current valid some_typed =
      ap (create_in asked e typed) current ∙ rw (valid_some slug valid, some_typed)

  create_named-cases :
      (e : Editor) (name : Bytes)
      → is_valid_slug slug ≡ true
      → IsReadable routed name
      → create_named asked e name ≡ (
          if is_empty (get_file srv.db all_through slug name)
          then do_create_file (record e { pending_file_name = some name }) name
          else (record e { pending_file_name = some name }, asks_back name))
  unfolding create_named
  create_named-cases e name valid readable = rw (missing-asked name valid readable)

  -- A new file spares what is there, if its name and those of its copies get to the server's route as
  -- they are, which the page leaves to the URL: it does not encode them. For a name that is typed,
  -- with ".md" behind it if it has no dot, the page PUTs the file if the project has no content under
  -- that name, and asks back otherwise. The answer "copy" then PUTs a file under a name that has no
  -- content, unless all copies from 2 to 99 have some: then it overwrites the very file that the user
  -- has asked to keep. The slug is the current one and valid, the typed text is not blank, the GETs go
  -- through, and the names are such that the route reads them.
  pub create_file-Spares :
      (e : Editor) (typed : Bytes)
      → e.current_slug ≡ some slug
      → is_valid_slug slug ≡ true
      → is_empty (js_trim typed) ≡ false
      → IsReadable routed (with_extension (js_trim typed))
      → ((k : ℕ)
          → 2 ≤ k
          → k < 100
          → IsReadable routed (try_name print asked (with_extension (js_trim typed)) k))
      → let name = with_extension (js_trim typed) in
        ((is_empty (get_file srv.db all_through slug name) ≡ true)
          × ((create_file asked e typed).1 ≡ puts name (heading name)))
        ⊎ ((is_empty (get_file srv.db all_through slug name) ≡ false)
            × ((create_file asked e typed).1 ≡ asks_back name)
            × Spares name (resolve_conflict print asked (create_file asked e typed).0 true).1)
  unfolding do_create_file
  create_file-Spares e typed current valid typed_some readable copies =
      let name = with_extension (js_trim typed) in
      let created =
        create_file_named e typed current valid typed_some
        ∙ create_named-cases e name valid readable in
      elim (Bool-cases (is_empty (get_file srv.db all_through slug name))) [
        | inl free ↦ inl (free, ap (λ r. r.1) created ∙ rw free)
        | inr taken ↦
            let outcome : create_file asked e typed
                ≡ (record e { pending_file_name = some name }, asks_back name) =
              created ∙ rw taken in
            inr (
              taken,
              ap (λ r. r.1) outcome,
              resolve_conflict-Spares (create_file asked e typed).0 name
                  (ap (λ r. r.0.pending_file_name) outcome) valid copies,
            )
      ]
