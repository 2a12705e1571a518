-- ===== src/Routes/Writes/Stored.antt =====
-- What a history of writes through the handlers can store.
use project_tracker.Base.{
  option_cases, ℕ, ◌≡◌, refl, Bool, not, Option, none, some, List, [], ◌∷◌, arith, Bytes, if_cases,
  length, codes,
}
use project_tracker.Json.{Json, string_at}
use project_tracker.Models.{from_json}
use project_tracker.Sanitizer.{is_valid_slug, is_valid_filename}
use project_tracker.Validator.{is_body_size_valid}
use project_tracker.Auth.{is_authorized}
use project_tracker.Db.{Database}
use project_tracker.Http.{Request, Response}
use project_tracker.Routes.{JsonText, Server, authorized, written}
use project_tracker.Routes.ProjectRoutes.{
  post_project, put_project, delete_project, create_from, update_from, field_error,
}
use project_tracker.Routes.FileRoutes.{
  put_route, delete_route, patch_route, patch_from, patched, is_bad_name,
}
use project_tracker.Routes.Writes.{
  Write, posts, puts, deletes, puts_file, deletes_file, patches_file, handle, run,
}
use project_tracker.Routes.Writes.Names.{
  IsNamed, create-IsNamed, update-IsNamed, remove-IsNamed, put_file-IsNamed, delete_file-IsNamed,
  patch_file-IsNamed,
}

-- Every project has a valid slug and every file a name that the server accepts.
abbrev pub Keeps : Server → Type 0
Keeps srv = IsNamed srv.allowed_extensions srv.db

abbrev Answers : Server × Response → Type 0
Answers r = Keeps r.0

module _ (lib : JsonText) where
  authorized-Keeps :
      (srv : Server) (req : Request) (clock : ℕ) (f : Server → Server × Response)
      → Keeps srv
      → ((s : Server) → Keeps s → Answers (f s))
      → Answers (authorized lib srv req clock f)
  unfolding authorized
  authorized-Keeps srv req clock f h k =
      let checked =
        is_authorized srv.auth (req.header (codes "X-API-Key")) (req.header (codes "Cookie"))
          req.remote_ip_address clock in
      if_cases Answers checked.1 _ _ (λ _. k (record srv { auth = checked.0 }) h) (λ _. h)

  written-Keeps :
      (srv : Server) (r : Database × Bool) (done failed : Bytes)
      → IsNamed srv.allowed_extensions r.0
      → Answers (written lib srv r done failed)
  written-Keeps srv (db, ok) done failed h = if_cases Answers ok _ _ (λ _. h) (λ _. h)

  create_from-Keeps :
      (srv : Server) (body : Json) (slug : Option Bytes) (now : Bytes) (io : Bool)
      → string_at (codes "slug") body ≡ slug
      → Keeps srv
      → Answers (create_from lib srv body slug now io)
  unfolding create_from from_json
  create_from-Keeps srv body none now io e h = h
  create_from-Keeps srv body (some slug) now io e h =
      if_cases Answers (not (is_valid_slug slug)) _ _ (λ _. h)
        λ valid.
          option_cases Answers (field_error body) _ _
            (written-Keeps srv _ _ _ (
              create-IsNamed srv.allowed_extensions srv.db io (from_json body) now
                (rw e (ground arith)) h))
            (λ message _. h)

  update_from-Keeps :
      (srv : Server) (slug : Bytes) (body : Json) (now : Bytes) (io : Bool)
      → Keeps srv
      → Answers (update_from lib srv slug body now io)
  unfolding update_from
  update_from-Keeps srv slug body now io h =
      option_cases Answers (field_error body) _ _
        (written-Keeps srv _ _ _ (update-IsNamed srv.allowed_extensions srv.db io slug body now h))
        (λ message _. h)

  patched-Keeps :
      (srv : Server) (r : Database × Bool) (slug filename : Bytes) (reads : ℕ → Bool)
      → IsNamed srv.allowed_extensions r.0
      → Answers (patched lib srv r slug filename reads)
  unfolding patched
  patched-Keeps srv (db, ok) slug filename reads h =
      if_cases Answers ok _ _ (λ _. h) λ _. if_cases Answers _ _ _ (λ _. h) (λ _. h)

  patch_from-Keeps :
      (srv : Server) (slug filename : Bytes) (body : Json) (op : Option Bytes) (now : Bytes)
      (io reads : ℕ → Bool)
      → Keeps srv
      → Answers (patch_from lib srv slug filename body op now io reads)
  unfolding patch_from
  patch_from-Keeps srv slug filename body none now io reads h = h
  patch_from-Keeps srv slug filename body (some op) now io reads h =
      patched-Keeps srv _ slug filename reads
        (patch_file-IsNamed srv.allowed_extensions srv.db io slug filename body now h)

  handle-Keeps :
      (srv : Server) (w : Write) (clock : ℕ) (now : Bytes)
      → Keeps srv
      → Answers (handle lib srv w clock now)
  unfolding handle post_project put_project delete_project put_route delete_route patch_route
  handle-Keeps srv (posts req io) clock now h = authorized-Keeps srv req clock _ h λ s k.
      if_cases Answers (not (is_body_size_valid (length req.body) 65536)) _ _ (λ _. k)
        λ _.
          option_cases Answers (lib.parse req.body) _ _ k
            (λ body _. create_from-Keeps s body (string_at (codes "slug") body) now io refl k)
  handle-Keeps srv (puts req slug io) clock now h = authorized-Keeps srv req clock _ h λ s k.
      if_cases Answers (not (is_valid_slug slug)) _ _ (λ _. k)
        λ _.
          if_cases Answers (not (is_body_size_valid (length req.body) 65536)) _ _ (λ _. k)
            λ _.
              option_cases Answers (lib.parse req.body) _ _ k
                (λ body _. update_from-Keeps s slug body now io k)
  handle-Keeps srv (deletes req slug io) clock now h = authorized-Keeps srv req clock _ h λ s k.
      if_cases Answers (not (is_valid_slug slug)) _ _ (λ _. k)
        λ _. written-Keeps s _ _ _ (remove-IsNamed s.allowed_extensions s.db io slug k)
  handle-Keeps srv (puts_file req slug filename io) clock now h =
      authorized-Keeps srv req clock _ h λ s k.
        if_cases Answers (not (is_valid_slug slug)) _ _ (λ _. k)
          λ _.
            if_cases Answers (not (is_valid_filename s.allowed_extensions filename)) _ _ (λ _. k)
              λ n.
                if_cases Answers (not (is_body_size_valid (length req.body) 10485760)) _ _ (λ _. k)
                  λ _. written-Keeps s _ _ _ (
                    put_file-IsNamed s.allowed_extensions s.db io slug filename req.body now
                      (ground arith) k)
  handle-Keeps srv (deletes_file req slug filename io) clock now h =
      authorized-Keeps srv req clock _ h λ s k.
        if_cases Answers (not (is_valid_slug slug)) _ _ (λ _. k)
          λ _.
            if_cases Answers (is_bad_name filename) _ _ (λ _. k)
              λ _.
                written-Keeps s _ _ _
                  (delete_file-IsNamed s.allowed_extensions s.db io slug filename k)
  handle-Keeps srv (patches_file req slug filename io reads) clock now h =
      authorized-Keeps srv req clock _ h λ s k.
        if_cases Answers (not (is_valid_slug slug)) _ _ (λ _. k)
          λ _.
            if_cases Answers (is_bad_name filename) _ _ (λ _. k)
              λ _.
                if_cases Answers (not (is_body_size_valid (length req.body) 65536)) _ _ (λ _. k)
                  λ _. option_cases Answers (lib.parse req.body) _ _ k (λ body _.
                    patch_from-Keeps s slug filename body (string_at (codes "op") body) now io reads
                      k)

-- Under any history of writing requests, authorised or not, and whatever SQLite does, every stored
-- project has a valid slug and every stored file a name that `isValidFilename` accepts, if it was so
-- before: also where a patch comes in with a name that only passes the relaxed check.
pub run-Keeps :
    (lib : JsonText) (srv : Server) (ws : List (Write × ℕ × Bytes))
    → Keeps srv
    → Keeps (run lib srv ws)
unfolding run
run-Keeps lib srv [] h = h
run-Keeps lib srv ((w, clock, now) ∷ ws) h =
    run-Keeps lib (handle lib srv w clock now).0 ws (handle-Keeps lib srv w clock now h)
