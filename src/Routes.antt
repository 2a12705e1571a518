-- ===== src/Routes.antt =====
-- src/routes/: the handlers. One of the project and file routes takes the server's state, the
-- request, the clock of the session check, and what SQLite does.
pub mod ProjectRoutes
pub mod FileRoutes
pub mod Writes
pub mod WebUi
pub mod Reads
pub mod Ranges
pub mod Lifecycle
pub mod Shown
use project_tracker.Base.{ℕ, Bool, if◌then◌else◌, Option, List, Bytes, codes}
use project_tracker.Json.{Json}
use project_tracker.Auth.{Auth, is_authorized}
use project_tracker.Db.{Database}
use project_tracker.Http.{Request, Response, json_error, json_success}

-- nlohmann::json: `parse(text, nullptr, false)`, with `none` for a discarded value, and `dump()`.
pub record JsonText : Type 0 where
  pub parse : Bytes → Option Json
  pub dump : Json → Bytes

pub record Server : Type 0 where
  pub auth : Auth
  pub db : Database
  pub allowed_extensions : List Bytes

abbrev pub refuse : JsonText → Server → ℕ → Bytes → Server × Response
refuse lib srv code message = (srv, json_error lib.dump code message)

-- The check of the key or the session in front of every write.
unfoldable pub authorized :
    JsonText → Server → Request → (now : ℕ) → (Server → Server × Response) → Server × Response
authorized lib srv req now handle =
    let (auth, ok) =
      is_authorized srv.auth (req.header (codes "X-API-Key")) (req.header (codes "Cookie"))
        req.remote_ip_address now in
    if ok
    then handle (record srv { auth = auth })
    else refuse lib (record srv { auth = auth }) 401 (codes "unauthorized")

-- The answer to a write of the database.
abbrev pub written :
    JsonText → Server → Database × Bool → (done : Bytes) → (failed : Bytes) → Server × Response
written lib srv (db, ok) done failed =
    if ok
    then (record srv { db = db }, json_success done)
    else refuse lib (record srv { db = db }) 500 failed
