-- ===== src/Routes/Lifecycle.antt =====
-- What the readers of a project see after a write of it, src/routes/projects.cpp and
-- src/routes/files.cpp.
use project_tracker.Base.{
  ℕ, ◌≡◌, ◌∙◌, ap, sym, Bool, true, false, ◌||◌, none, some, [], ◌∷◌, Bytes, codes, Bool-cases, inl,
  inr,
}
use project_tracker.Json.{Json, Items, string_at}
use project_tracker.Models.{Project, from_json, to_json_full, files_array}
use project_tracker.Routes.Shown.{
  row_json, new_json, edited_json, to_json_full-created, to_json_full-detail,
  to_json_full-changed_row,
}
use project_tracker.Text.{contains_byte}
use project_tracker.Sanitizer.{is_valid_slug}
use project_tracker.Db.{ProjectRow, Database, Sql, SqlLaws, select_project, get_project_id_unlocked}
use project_tracker.Db.Projects.{
  select_files, update, changed_row, detail, create, remove, get_by_slug,
}
use project_tracker.Db.Files.{get_file}
use project_tracker.Db.Calls.{updates, creates, removes, step}
use project_tracker.Db.Calls.Invariant.{WellFormed}
use project_tracker.Db.Store.Details.{
  get_by_slug_found, get_by_slug-create, get_by_slug-update, select-remove,
}
use project_tracker.Http.{Request, Response, json_error, json_type, new_response, write}
use project_tracker.Routes.{JsonText, Server}
use project_tracker.Routes.ProjectRoutes.{put_project, post_project, delete_project, get_project}
use project_tracker.Db.Projects.Tables.{select-slug}
use project_tracker.Routes.Writes.{puts, handle, posts, deletes}
use project_tracker.Routes.Writes.OneCall.{handle-IsTold}
use project_tracker.Routes.FileRoutes.{read_route, is_bad_name}
use project_tracker.Routes.Writes.Slugs.{
  Granted, delete_project-slug, post_project-slug, put_project-slug,
}

slug-detail :
    (sql : Sql) (db : Database) (row : ProjectRow) (slug : Bytes) (fields : Json) (now : Bytes)
    → select_project slug db.projects ≡ some row
    → (detail sql db (changed_row fields now row)).slug ≡ slug
unfolding detail changed_row
slug-detail sql db row slug fields now found = select-slug slug db.projects row found

get_file-gone :
    (db : Database) (slug name : Bytes) (reads : ℕ → Bool)
    → select_project slug db.projects ≡ none
    → get_file db reads slug name ≡ []
unfolding get_file get_project_id_unlocked
get_file-gone db slug name reads gone = elim (Bool-cases (reads 0)) [
  | inl e ↦ rw (get_file, e, gone)
  | inr e ↦ rw (get_file, e)
]

module _ (lib : JsonText) where
  -- The answer 200 with this JSON.
  abbrev pub shows : Json → Response
  shows j = json_type (write (lib.dump j) (new_response 200))

  get_project-found :
      (sql : Sql) (srv : Server) (slug : Bytes) (p : Project)
      → is_valid_slug slug ≡ true
      → p.slug ≡ slug
      → get_by_slug sql srv.db true slug ≡ p
      → get_project lib sql srv slug true ≡ shows (to_json_full p)
  unfolding get_project is_valid_slug
  get_project-found sql srv [] p valid same found = absurd cc
  get_project-found sql srv (c ∷ s) p valid same found = rw (valid, found, same)

  get_project-gone :
      (sql : Sql) (srv : Server) (slug : Bytes) (reads : Bool)
      → is_valid_slug slug ≡ true
      → select_project slug srv.db.projects ≡ none
      → get_project lib sql srv slug reads ≡ json_error lib.dump 404 (codes "not found")
  unfolding get_project get_by_slug
  get_project-gone sql srv slug true valid gone = rw (valid, gone)
  get_project-gone sql srv slug false valid gone = rw valid

  read_route-gone :
      (print : ℕ → Bytes) (srv : Server) (read : Request) (slug name : Bytes) (reads : ℕ → Bool)
      → is_valid_slug slug ≡ true
      → (is_bad_name name || contains_byte name b'/') ≡ false
      → select_project slug srv.db.projects ≡ none
      → read_route lib print srv read slug name reads
        ≡ json_error lib.dump 404 (codes "file not found")
  unfolding read_route
  read_route-gone print srv read slug name reads valid named gone =
      rw (valid, named, get_file-gone srv.db slug name reads gone)

  from_json-slug :
      (body : Json) (slug : Bytes)
      → string_at (codes "slug") body ≡ some slug
      → (from_json body).slug ≡ slug
  unfolding from_json
  from_json-slug body slug e = rw e

  -- A project that a POST has created, by its answer 200 on well-formed tables, is shown by a GET of
  -- its slug that SQLite goes through with: with the texts that the body has under "name", "tags",
  -- "description" and "repo_path", empty where they are missing; its "status" and its "priority",
  -- "active" and "medium" where they are missing or empty; the next key; the time of the POST for
  -- both times; and no files. The body of the POST reads as JSON with a text under "slug".
  pub get_project-post_project :
      (sql : Sql) (srv : Server) (req : Request) (body : Json) (slug : Bytes) (clock : ℕ)
      (now : Bytes) (io : Bool)
      → SqlLaws sql
      → WellFormed srv.db
      → lib.parse req.body ≡ some body
      → string_at (codes "slug") body ≡ some slug
      → (post_project lib srv req clock now io).1.code ≡ 200
      → get_project lib sql (post_project lib srv req clock now io).0 slug true
        ≡ shows (new_json srv.db.next_id slug body now)
  unfolding Granted handle step
  get_project-post_project sql srv req body slug clock now io laws v e k ok =
      elim (handle-IsTold lib srv (posts req io) clock now) [
        | inr (n, same) ↦ absurd (n ok)
        | inl (code, c, asked, after, done) ↦
            let asks : some (creates (from_json body) now io) ≡ some c = rw e at asked in
            let call : creates (from_json body) now io ≡ c = cc in
            let made : (create srv.db io (from_json body) now).1 ≡ true =
              ap (λ d. (step srv.db d).1) call ∙ done in
            let stored : (post_project lib srv req clock now io).0.db
                ≡ (create srv.db io (from_json body) now).0 =
              after ∙ ap (λ d. (step srv.db d).0) (sym call) in
            let same = from_json-slug body slug k in
            get_project-found sql (post_project lib srv req clock now io).0 slug _
              (post_project-slug lib srv req body slug clock now io e k ok) same
              (ap (λ d. get_by_slug sql d true slug) stored
                ∙ (ap (get_by_slug sql _ true) (sym same)
                    ∙ get_by_slug-create sql laws srv.db v io (from_json body) now made))
            ∙ ap shows (to_json_full-created srv.db.next_id slug body now k)
      ]

  -- A PUT of a project with the answer 200, on well-formed tables, whose body reads as JSON, has met
  -- a project under its slug, which a GET that SQLite goes through with showed before. The GET after
  -- it shows the body's texts under "name", "status", "priority", "tags", "description" and
  -- "repo_path" in their places, but what was there where the body has no such text or an empty one;
  -- the time of the PUT as the time of the update; and the key, the slug, the time of the creation and
  -- the files as before.
  pub get_project-put_project :
      (sql : Sql) (srv : Server) (req : Request) (body : Json) (slug : Bytes) (clock : ℕ)
      (now : Bytes) (io : Bool)
      → SqlLaws sql
      → WellFormed srv.db
      → lib.parse req.body ≡ some body
      → (put_project lib srv req slug clock now io).1.code ≡ 200
      → (row : ProjectRow) × (files : Items) × (select_project slug srv.db.projects ≡ some row)
        × (get_project lib sql srv slug true ≡ shows (row_json row files))
        × (get_project lib sql (put_project lib srv req slug clock now io).0 slug true
            ≡ shows (edited_json row body now files))
  unfolding Granted handle step detail
  get_project-put_project sql srv req body slug clock now io laws v e ok =
      elim (handle-IsTold lib srv (puts req slug io) clock now) [
        | inr (n, same) ↦ absurd (n ok)
        | inl (code, c, asked, after, done) ↦
            let asks : some (updates slug body now io) ≡ some c = rw e at asked in
            let call : updates slug body now io ≡ c = cc in
            let made : (update srv.db io slug body now).1 ≡ true =
              ap (λ d. (step srv.db d).1) call ∙ done in
            let stored : (put_project lib srv req slug clock now io).0.db
                ≡ (update srv.db io slug body now).0 =
              after ∙ ap (λ d. (step srv.db d).0) (sym call) in
            let (row, found, shown) = get_by_slug-update sql laws srv.db v io slug body now made in
            let valid = put_project-slug lib srv req slug clock now io ok in
            (
              row,
              files_array (select_files sql srv.db row.id),
              found,
              get_project-found sql srv slug _ valid (select-slug slug srv.db.projects row found)
                    (get_by_slug_found sql srv.db slug row found)
                  ∙ ap shows (to_json_full-detail sql srv.db row),
              get_project-found sql (put_project lib srv req slug clock now io).0 slug _ valid
                    (slug-detail sql srv.db row slug body now found)
                    (ap (λ d. get_by_slug sql d true slug) stored ∙ shown)
                  ∙ ap shows (to_json_full-changed_row sql srv.db row body now),
            )
      ]

  -- After a DELETE of a project with the answer 200, on well-formed tables, the GET of the project
  -- answers 404, whatever SQLite does, and so does the GET of any of its files, under a name that
  -- the route reads at all.
  pub get_project-delete_project :
      (sql : Sql) (print : ℕ → Bytes) (srv : Server) (req read : Request) (slug name : Bytes)
      (clock : ℕ) (io reads : ℕ → Bool)
      → WellFormed srv.db
      → (is_bad_name name || contains_byte name b'/') ≡ false
      → (delete_project lib srv req slug clock io).1.code ≡ 200
      → (get_project lib sql (delete_project lib srv req slug clock io).0 slug (reads 0)
          ≡ json_error lib.dump 404 (codes "not found"))
        × (read_route lib print (delete_project lib srv req slug clock io).0 read slug name reads
            ≡ json_error lib.dump 404 (codes "file not found"))
  unfolding Granted handle step
  get_project-delete_project sql print srv req read slug name clock io reads v named ok =
      elim (handle-IsTold lib srv (deletes req slug io) clock []) [
        | inr (n, same) ↦ absurd (n ok)
        | inl (code, c, asked, after, done) ↦
            let call : removes slug io ≡ c = cc in
            let made : (remove srv.db io slug).1 ≡ true = ap (λ d. (step srv.db d).1) call ∙ done in
            let stored : (delete_project lib srv req slug clock io).0.db
                ≡ (remove srv.db io slug).0 =
              after ∙ ap (λ d. (step srv.db d).0) (sym call) in
            let gone : select_project slug (delete_project lib srv req slug clock io).0.db.projects
                ≡ none =
              ap (λ d. select_project slug d.projects) stored
              ∙ select-remove srv.db io slug v made in
            let valid = delete_project-slug lib srv req slug clock io ok in
            (
              get_project-gone sql _ slug (reads 0) valid gone,
              read_route-gone print _ read slug name reads valid named gone,
            )
      ]
