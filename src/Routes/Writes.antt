-- ===== src/Routes/Writes.antt =====
-- The writing handlers together: who may use them, and what they store.
pub mod Names
pub mod Stored
pub mod Outcomes
pub mod OneCall
pub mod Slugs
pub mod Fields
pub mod Decent
pub mod Tidy
use project_tracker.Base.{
  ℕ, ◌≡◌, refl, Bool, true, false, if◌then◌else◌, Option, none, some, List, [], ◌∷◌, Bytes, codes,
}
use project_tracker.Auth.{is_authorized}
use project_tracker.Http.{Request, Response, json_error}
use project_tracker.Routes.{JsonText, Server, authorized, refuse}
use project_tracker.Routes.ProjectRoutes.{post_project, put_project, delete_project}
use project_tracker.Routes.FileRoutes.{put_route, delete_route, patch_route}

-- A request to a writing handler, with the texts of its path and what SQLite does.
pub data Write : Type 0 where
  posts : Request → Bool → Write
  puts : Request → (slug : Bytes) → Bool → Write
  deletes : Request → (slug : Bytes) → (ℕ → Bool) → Write
  puts_file : Request → (slug filename : Bytes) → (ℕ → Bool) → Write
  deletes_file : Request → (slug filename : Bytes) → (ℕ → Bool) → Write
  patches_file : Request → (slug filename : Bytes) → (goes_through reads : ℕ → Bool) → Write

abbrev pub request_of : Write → Request
request_of (posts req io) = req
request_of (puts req slug io) = req
request_of (deletes req slug io) = req
request_of (puts_file req slug filename io) = req
request_of (deletes_file req slug filename io) = req
request_of (patches_file req slug filename io reads) = req

module _ (lib : JsonText) where
  unfoldable pub handle : Server → Write → (clock : ℕ) → (now : Bytes) → Server × Response
  handle srv (posts req io) clock now = post_project lib srv req clock now io
  handle srv (puts req slug io) clock now = put_project lib srv req slug clock now io
  handle srv (deletes req slug io) clock now = delete_project lib srv req slug clock io
  handle srv (puts_file req slug filename io) clock now =
      put_route lib srv req slug filename clock now io
  handle srv (deletes_file req slug filename io) clock now =
      delete_route lib srv req slug filename clock io
  handle srv (patches_file req slug filename io reads) clock now =
      patch_route lib srv req slug filename clock now io reads

  -- A history of writes, each with the clock and the text of its time.
  unfoldable pub run : Server → List (Write × ℕ × Bytes) → Server
  unfolding handle
  run srv [] = srv
  run srv ((w, clock, now) ∷ ws) = run (handle srv w clock now).0 ws

-- What the check says of a request.
abbrev pub may_write : Server → Request → (clock : ℕ) → Bool
may_write srv req clock =
    (is_authorized srv.auth (req.header (codes "X-API-Key")) (req.header (codes "Cookie"))
      req.remote_ip_address clock).1

-- The answer 401 to an unchanged database.
abbrev pub IsUnauthorized : Server → Server × Response → Type 0
IsUnauthorized srv r = (r.1.code ≡ 401) × (r.0.db ≡ srv.db)

authorized-IsUnauthorized :
    (lib : JsonText) (srv : Server) (req : Request) (clock : ℕ) (f : Server → Server × Response)
    → may_write srv req clock ≡ false
    → IsUnauthorized srv (authorized lib srv req clock f)
unfolding authorized json_error
authorized-IsUnauthorized lib srv req clock f h = rw (h, authorized) (refl, refl)

-- No handler writes without the key or a live session: it answers 401 and the database is the same.
pub handle-IsUnauthorized :
    (lib : JsonText) (srv : Server) (w : Write) (clock : ℕ) (now : Bytes)
    → may_write srv (request_of w) clock ≡ false
    → IsUnauthorized srv (handle lib srv w clock now)
unfolding handle post_project put_project delete_project put_route delete_route patch_route
handle-IsUnauthorized lib srv (posts req io) clock now h =
    authorized-IsUnauthorized lib srv req clock _ h
handle-IsUnauthorized lib srv (puts req slug io) clock now h =
    authorized-IsUnauthorized lib srv req clock _ h
handle-IsUnauthorized lib srv (deletes req slug io) clock now h =
    authorized-IsUnauthorized lib srv req clock _ h
handle-IsUnauthorized lib srv (puts_file req slug filename io) clock now h =
    authorized-IsUnauthorized lib srv req clock _ h
handle-IsUnauthorized lib srv (deletes_file req slug filename io) clock now h =
    authorized-IsUnauthorized lib srv req clock _ h
handle-IsUnauthorized lib srv (patches_file req slug filename io reads) clock now h =
    authorized-IsUnauthorized lib srv req clock _ h
