-- ===== src/App.antt =====
-- src/main.cpp: what `main` makes of the settings before the server runs. A setting that is read as
-- an `int` and kept as a `size_t` wraps. The lines for the log are left out.
pub mod Start
pub mod Keys
pub mod Loop
pub mod Serve
use project_tracker.Base.{
  ℕ, Bool, true, Option, none, some, List, [], ◌∷◌, if◌then◌else◌, is_empty, ℤ, pos, to_size, Bytes,
  codes, bytes_eq, map,
}
use project_tracker.Text.{trim, split}
use project_tracker.Config.{Config, new_config, load, get, get_int, get_bool}
use project_tracker.Logger.{LogLevel, debug, info, warn, error}
use project_tracker.Auth.{Auth, new_auth, config_sessions}
use project_tracker.RateLimiter.{RateLimiter, new_limiter, set_trusted_proxies}
use project_tracker.Sanitizer.{default_extensions, load_allowed_extensions}
use project_tracker.Http.{SecurityMiddleware, new_middleware, set_cors_origins}

unfoldable pub log_level_of : Config → LogLevel
log_level_of c =
    let log_level_str = get c (codes "env") (codes "LOG_LEVEL") (codes "INFO") in
    if bytes_eq log_level_str (codes "DEBUG")
    then debug
    else if bytes_eq log_level_str (codes "WARN")
    then warn
    else if bytes_eq log_level_str (codes "ERROR")
    then error
    else info

-- `key` is what `getenv` gives for PROJECT_API_KEY.
abbrev pub key_or_empty : Option Bytes → Bytes
key_or_empty none = []
key_or_empty (some k) = k

unfoldable pub auth_of : Config → (key : Option Bytes) → Auth
auth_of c key =
    config_sessions (project_tracker.Auth.init new_auth (key_or_empty key))
      (to_size (get_int c (codes "env") (codes "SESSION_MAX") (pos 50)))
      (get_int c (codes "env") (codes "SESSION_TIMEOUT") (pos 86400))
      (get_bool c (codes "env") (codes "BIND_SESSION_TO_IP") true)

-- The parts of a list in the settings, each trimmed.
unfoldable pub trimmed_parts : Bytes → List Bytes
trimmed_parts text = map trim (split text b',')

unfoldable pub with_proxies : Bytes → RateLimiter → RateLimiter
with_proxies proxies r =
    if is_empty proxies then r else set_trusted_proxies r (trimmed_parts proxies)

unfoldable pub limiter_of : Config → RateLimiter
limiter_of c = with_proxies (get c (codes "env") (codes "TRUSTED_PROXIES") []) (
    project_tracker.RateLimiter.init new_limiter
      (get_bool c (codes "env") (codes "RATE_LIMIT_ENABLED") true)
      (to_size (get_int c (codes "env") (codes "READ_RPM") (pos 120)))
      (to_size (get_int c (codes "env") (codes "WRITE_RPM") (pos 30)))
      (to_size (get_int c (codes "env") (codes "BURST_SIZE") (pos 15)))
      (to_size (get_int c (codes "env") (codes "BAN_THRESHOLD") (pos 10)))
      (get_int c (codes "env") (codes "BAN_DURATION") (pos 600)))

unfoldable pub extensions_of : Config → List Bytes
extensions_of c =
    let allowed = get c (codes "env") (codes "ALLOWED_EXTENSIONS") [] in
    if is_empty allowed then default_extensions else load_allowed_extensions allowed

unfoldable pub with_origins : Bytes → SecurityMiddleware → SecurityMiddleware
with_origins origins m = if is_empty origins then m else set_cors_origins (trimmed_parts origins) m

unfoldable pub middleware_of : Config → SecurityMiddleware
middleware_of c =
    with_origins (get c (codes "env") (codes "CORS_ORIGINS") []) (record new_middleware {
      rate_limiter = some (limiter_of c);
      max_body_size = to_size (get_int c (codes "env") (codes "MAX_BODY_SIZE") (pos 10485760));
    })

-- What the server runs with.
pub record Settings : Type 0 where
  pub log_level : LogLevel
  pub auth : Auth
  pub middleware : SecurityMiddleware
  pub extensions : List Bytes
  pub db_path : Bytes
  pub port : ℤ

unfoldable pub settings_of : Config → (key : Option Bytes) → Settings
unfolding log_level_of auth_of middleware_of extensions_of
settings_of c key = record {
  log_level = log_level_of c;
  auth = auth_of c key;
  middleware = middleware_of c;
  extensions = extensions_of c;
  db_path = get c (codes "env") (codes "DB_PATH") (codes "/data/projects.db");
  port = get_int c (codes "env") (codes "PORT") (pos 8080);
}

-- `main` up to the start of the server, with `none` where it ends with exit code 1: the settings
-- file or the database cannot be opened.
unfoldable pub configure :
    (file : Option Bytes) → (key : Option Bytes) → (opens : Bytes → Bool) → Option Settings
unfolding settings_of
configure file key opens = elim (load file new_config) [
  | none ↦ none
  | some c ↦ if opens (settings_of c key).db_path then some (settings_of c key) else none
]
