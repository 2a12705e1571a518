-- ===== src/Routes/Writes/Slugs.antt =====
-- What the answer 200 of a project's handler says of the slug.
use project_tracker.Base.{
  ℕ, ◌≡◌, ◌≢◌, sym, Bool, true, not, Option, none, some, arith, Bytes, codes, if_cases, length,
}
use project_tracker.Json.{Json, string_at}
use project_tracker.Sanitizer.{is_valid_slug}
use project_tracker.Validator.{is_body_size_valid}
use project_tracker.Http.{Request, Response, json_error}
use project_tracker.Routes.{JsonText, Server, authorized, refuse}
use project_tracker.Routes.ProjectRoutes.{put_project, post_project, delete_project, create_from}
use project_tracker.Auth.{is_authorized}

-- A response 200 of a server comes with `P`.
unfoldable pub Granted : Type 0 → Server × Response → Type 0
Granted P r = r.1.code ≡ 200 → P

module _ (lib : JsonText) where
  pub refused-Granted :
      (P : Type 0) (srv : Server) (code : ℕ) (message : Bytes)
      → code ≢ 200
      → Granted P (refuse lib srv code message)
  unfolding Granted json_error
  refused-Granted P srv code message n h = absurd (n h)

  pub authorized-Granted :
      (P : Type 0) (srv : Server) (req : Request) (clock : ℕ) (f : Server → Server × Response)
      → ((s : Server) → Granted P (f s))
      → Granted P (authorized lib srv req clock f)
  unfolding authorized
  authorized-Granted P srv req clock f h =
      if_cases (Granted P)
        (is_authorized srv.auth (req.header (codes "X-API-Key")) (req.header (codes "Cookie"))
          req.remote_ip_address clock).1
        _ _ (λ _. h _) (λ _. refused-Granted P _ 401 _ (omega arith))

  pub delete_project-slug :
      (srv : Server) (req : Request) (slug : Bytes) (clock : ℕ) (io : ℕ → Bool)
      → Granted (is_valid_slug slug ≡ true) (delete_project lib srv req slug clock io)
  unfolding delete_project Granted
  delete_project-slug srv req slug clock io = authorized-Granted _ srv req clock _ λ s.
      if_cases (Granted (is_valid_slug slug ≡ true)) (not (is_valid_slug slug)) _ _
        (λ _. refused-Granted _ s 400 _ (omega arith)) (λ valid _. ground arith)

  create_from-slug :
      (srv : Server) (body : Json) (o : Option Bytes) (slug now : Bytes) (io : Bool)
      → o ≡ some slug
      → Granted (is_valid_slug slug ≡ true) (create_from lib srv body o now io)
  unfolding create_from Granted
  create_from-slug srv body none slug now io e = absurd cc
  create_from-slug srv body (some s) slug now io e =
      let same : s ≡ slug = cc in
      if_cases (Granted (is_valid_slug slug ≡ true)) (not (is_valid_slug s)) _ _
        (λ _. refused-Granted _ srv 400 _ (omega arith)) (λ valid _. rw (sym same) (ground arith))

  pub post_project-slug :
      (srv : Server) (req : Request) (body : Json) (slug : Bytes) (clock : ℕ) (now : Bytes)
      (io : Bool)
      → lib.parse req.body ≡ some body
      → string_at (codes "slug") body ≡ some slug
      → Granted (is_valid_slug slug ≡ true) (post_project lib srv req clock now io)
  unfolding post_project
  post_project-slug srv req body slug clock now io e k = authorized-Granted _ srv req clock _ λ s.
      if_cases (Granted (is_valid_slug slug ≡ true))
        (not (is_body_size_valid (length req.body) 65536)) _ _
        (λ _. refused-Granted _ s 413 _ (omega arith))
        (λ _. rw e (create_from-slug s body (string_at (codes "slug") body) slug now io k))

  pub put_project-slug :
      (srv : Server) (req : Request) (slug : Bytes) (clock : ℕ) (now : Bytes) (io : Bool)
      → Granted (is_valid_slug slug ≡ true) (put_project lib srv req slug clock now io)
  unfolding put_project Granted
  put_project-slug srv req slug clock now io = authorized-Granted _ srv req clock _ λ s.
      if_cases (Granted (is_valid_slug slug ≡ true)) (not (is_valid_slug slug)) _ _
        (λ _. refused-Granted _ s 400 _ (omega arith)) (λ valid _. ground arith)
