-- ===== src/Routes/Writes/OneCall.antt =====
-- The calls that a writing handler makes.
use project_tracker.Base.{
  ◌≢◌, arith, ℕ, ◌≡◌, ◌⊎◌, inl, inr, refl, Bool, not, if◌then◌else◌, Option, none, some, Bytes,
  if_cases, length, codes,
}
use project_tracker.Json.{Json, string_at}
use project_tracker.Models.{from_json}
use project_tracker.Sanitizer.{is_valid_slug, is_valid_filename}
use project_tracker.Validator.{is_body_size_valid}
use project_tracker.Auth.{Auth, is_authorized}
use project_tracker.Db.{Database}
use project_tracker.Db.Calls.{Call, creates, updates, removes, puts, deletes, patches, step}
use project_tracker.Http.{Request, Response}
use project_tracker.Routes.{JsonText, Server, authorized, refuse}
use project_tracker.Routes.ProjectRoutes.{post_project, put_project, delete_project}
use project_tracker.Routes.FileRoutes.{put_route, delete_route, patch_route, is_bad_name}
use project_tracker.Routes.Writes.{
  Write, posts, puts, deletes, puts_file, deletes_file, patches_file, handle, request_of,
}
use project_tracker.Routes.Writes.Outcomes.{
  of_body, call_of, IsTold, Did, refused, written-Did, create_from-Did, update_from-Did,
  patch_from-Did,
}

-- The database is the same, or that of one call.
abbrev pub IsOneCall : Database → Database → Type 0
IsOneCall before after = (after ≡ before) ⊎ ((c : Call) × (after ≡ (step before c).0))

-- The session check of the request.
abbrev pub checked : Server → Request → (clock : ℕ) → Auth
checked srv req clock =
    (is_authorized srv.auth (req.header (codes "X-API-Key")) (req.header (codes "Cookie"))
      req.remote_ip_address clock).0

module _ (lib : JsonText) where
  -- A check that refuses, or the rest.
  unless_refused :
      (s : Server) (asked : Option Call) (test : Bool) (code : ℕ) (message : Bytes)
      (rest : Server × Response)
      → code ≢ 200
      → Did s asked rest
      → Did s asked (if test then refuse lib s code message else rest)
  unless_refused s asked test code message rest n h =
      if_cases (Did s asked) test _ _ (λ _. refused lib s asked code message n) (λ _. h)

  -- A body that is JSON, or a refusal.
  with_body :
      (s : Server) (text : Bytes) (ask : Json → Call) (f : Json → Server × Response)
      → ((body : Json) → Did s (some (ask body)) (f body))
      → Did s (of_body (lib.parse text) ask) (elim (lib.parse text) as (λ _. Server × Response) [
        | none ↦ refuse lib s 400 (codes "invalid json")
        | some body ↦ f body
      ])
  with_body s text ask f h =
      elim (lib.parse text)
        as (λ o. Did s (of_body o ask) (elim o as (λ _. Server × Response) [
          | none ↦ refuse lib s 400 (codes "invalid json")
          | some body ↦ f body
        ])) [ none ↦ refused lib s none 400 _ (omega arith) | some body ↦ h body ]

  authorized-Did :
      (srv : Server) (asked : Option Call) (req : Request) (clock : ℕ)
      (f : Server → Server × Response)
      → Did
          (record srv { auth = checked srv req clock })
          asked
          (f (record srv { auth = checked srv req clock }))
      → Did (record srv { auth = checked srv req clock }) asked (authorized lib srv req clock f)
  unfolding authorized
  authorized-Did srv asked req clock f k =
      if_cases (Did (record srv { auth = checked srv req clock }) asked)
        (is_authorized srv.auth (req.header (codes "X-API-Key")) (req.header (codes "Cookie"))
          req.remote_ip_address clock).1
        _ _ (λ _. k)
        (λ _.
          refused lib (record srv { auth = checked srv req clock }) asked 401 (codes "unauthorized")
            (omega arith))

  handle-Did :
      (srv : Server) (w : Write) (clock : ℕ) (now : Bytes)
      → Did
          (record srv { auth = checked srv (request_of w) clock })
          (call_of lib w now)
          (handle lib srv w clock now)
  unfolding handle post_project put_project delete_project put_route delete_route patch_route step
  handle-Did srv (posts req io) clock now = authorized-Did srv _ req clock _ (
      unless_refused _ _ (not (is_body_size_valid (length req.body) 65536)) 413 _ _ (omega arith) (
        with_body _ req.body (λ body. creates (from_json body) now io) _
          λ body. create_from-Did lib _ _ body (string_at (codes "slug") body) now io refl))
  handle-Did srv (puts req slug io) clock now = authorized-Did srv _ req clock _ (
      unless_refused _ _ (not (is_valid_slug slug)) 400 _ _ (omega arith) (
        unless_refused _ _ (not (is_body_size_valid (length req.body) 65536)) 413 _ _ (omega arith)
          (with_body _ req.body (λ body. updates slug body now io) _
            λ body. update_from-Did lib _ _ slug body now io refl)))
  handle-Did srv (deletes req slug io) clock now = authorized-Did srv _ req clock _ (
      unless_refused _ _ (not (is_valid_slug slug)) 400 _ _ (omega arith)
        (written-Did lib _ _ _ _ _ (removes slug io) refl refl))
  handle-Did srv (puts_file req slug name io) clock now = authorized-Did srv _ req clock _ (
      unless_refused _ _ (not (is_valid_slug slug)) 400 _ _ (omega arith) (
        unless_refused _ _ (not (is_valid_filename srv.allowed_extensions name)) 400 _ _
          (omega arith)
          (unless_refused _ _ (not (is_body_size_valid (length req.body) 10485760)) 413 _ _
            (omega arith) (written-Did lib _ _ _ _ _ (puts slug name req.body now io) refl refl))))
  handle-Did srv (deletes_file req slug name io) clock now = authorized-Did srv _ req clock _ (
      unless_refused _ _ (not (is_valid_slug slug)) 400 _ _ (omega arith) (
        unless_refused _ _ (is_bad_name name) 400 _ _ (omega arith)
          (written-Did lib _ _ _ _ _ (deletes slug name io) refl refl)))
  handle-Did srv (patches_file req slug name io reads) clock now =
      authorized-Did srv _ req clock _ (
        unless_refused _ _ (not (is_valid_slug slug)) 400 _ _ (omega arith) (
          unless_refused _ _ (is_bad_name name) 400 _ _ (omega arith) (
            unless_refused _ _ (not (is_body_size_valid (length req.body) 65536)) 413 _ _
              (omega arith)
              (with_body _ req.body (λ body. patches slug name body now io) _
                λ body.
                  patch_from-Did lib _ _ slug name body (string_at (codes "op") body) now io reads
                    refl))))

  -- The status of a write tells the truth: an answer 200 means that the database has done the very
  -- call that the request asks for, and reported it done; any other status, that nothing has changed.
  pub handle-IsTold :
      (srv : Server) (w : Write) (clock : ℕ) (now : Bytes)
      → IsTold srv.db
          (call_of lib w now)
          (handle lib srv w clock now).0.db
          (handle lib srv w clock now).1.code
  unfolding Did
  handle-IsTold srv w clock now = (handle-Did srv w clock now).2

  told-IsOneCall :
      (before after : Database) (asked : Option Call) (code : ℕ)
      → IsTold before asked after code
      → IsOneCall before after
  told-IsOneCall before after asked code (inl (k, c, a, e, t)) = inr (c, e)
  told-IsOneCall before after asked code (inr (n, e)) = inl e

  -- Each writing handler checks the session once, and changes the database by one call of its methods
  -- at most.
  pub handle-IsOneCall :
      (srv : Server) (w : Write) (clock : ℕ) (now : Bytes)
      → ((handle lib srv w clock now).0.auth ≡ checked srv (request_of w) clock)
        × ((handle lib srv w clock now).0.allowed_extensions ≡ srv.allowed_extensions)
        × IsOneCall srv.db (handle lib srv w clock now).0.db
  unfolding Did
  handle-IsOneCall srv w clock now =
      let (auth, extensions, told) = handle-Did srv w clock now in
      (auth, extensions, told-IsOneCall _ _ _ _ told)
