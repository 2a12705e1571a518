-- ===== src/Http.antt =====
-- src/http/middleware.cpp: the checks in front of every handler, and the headers behind them. Requests
-- and responses are those of Crow, as far as the source uses them; the log line of a request is that
-- of Access, and the warning of a blocked request is left out.
pub mod Guards
pub mod Access
pub mod Origins
use project_tracker.Base.{
  ℕ, Bool, true, false, not, ◌&&◌, ◌||◌, Option, none, some, List, [], ◌∷◌, ◌++◌, ltb,
  if◌then◌else◌, length, is_empty, any, Bytes, codes, bytes_eq,
}
use project_tracker.Json.{Json, string, object, end, field}
use project_tracker.RateLimiter.{RateLimiter, allow_request, resolve_client_ip}
use project_tracker.Text.{contains, found_at_start}

pub data Method : Type 0 where
  get : Method
  head : Method
  options : Method
  post : Method
  put : Method
  patch : Method
  delete : Method

-- `header name` is `get_header_value(name)`, empty where there is none; `param name` is
-- `url_params.get(name)`, with `none` for the null pointer.
pub record Request : Type 0 where
  pub method : Method
  pub header : Bytes → Bytes
  pub param : Bytes → Option Bytes
  pub body : Bytes
  pub remote_ip_address : Bytes

-- `ended` says whether `end` was called, which answers without the handler.
pub record Response : Type 0 where
  pub code : ℕ
  pub headers : List (Bytes × Bytes)
  pub body : Bytes
  pub ended : Bool

abbrev pub new_response : ℕ → Response
new_response code = record { code = code; headers = []; body = []; ended = false }

abbrev pub add_header : (name val : Bytes) → Response → Response
add_header name val res = record res { headers = res.headers ++ (name, val) ∷ [] }

abbrev pub write : Bytes → Response → Response
write text res = record res { body = res.body ++ text }

abbrev pub finish : ℕ → Response → Response
finish code res = record res { code = code; ended = true }

-- The state that all requests share.
pub record SecurityMiddleware : Type 0 where
  pub rate_limiter : Option RateLimiter
  pub max_body_size : ℕ
  pub cors_origins : List Bytes

abbrev pub new_middleware : SecurityMiddleware
new_middleware = record { rate_limiter = none; max_body_size = 10485760; cors_origins = [] }

abbrev pub set_cors_origins : List Bytes → SecurityMiddleware → SecurityMiddleware
set_cors_origins origins m = record m { cors_origins = origins }

unfoldable pub is_write : Method → Bool
is_write get = false
is_write head = false
is_write options = false
is_write post = true
is_write put = true
is_write patch = true
is_write delete = true

abbrev pub is_options : Method → Bool
is_options options = true
is_options get = false
is_options head = false
is_options post = false
is_options put = false
is_options patch = false
is_options delete = false

unfoldable pub is_listed : List Bytes → (origin : Bytes) → Bool
is_listed origins origin = any (λ o. bytes_eq o origin || bytes_eq o (codes "*")) origins

unfoldable pub preflight : List Bytes → (origin : Bytes) → Response → Response
preflight origins origin res =
    if (is_empty origins || is_listed origins origin) && not (is_empty origin)
    then finish 204 (
        add_header (codes "Access-Control-Allow-Credentials") (codes "true") (
          add_header (codes "Access-Control-Max-Age") (codes "3600") (
            add_header (codes "Access-Control-Allow-Headers") (codes "Content-Type, X-API-Key") (
              add_header (codes "Access-Control-Allow-Methods")
                (codes "GET, POST, PUT, DELETE, PATCH, OPTIONS")
                (add_header (codes "Access-Control-Allow-Origin") origin res)))))
    else finish 204 res

unfoldable pub client_ip_of : SecurityMiddleware → Request → Bytes
client_ip_of m req = elim m.rate_limiter [
  | none ↦ req.remote_ip_address
  | some r ↦ resolve_client_ip r req.remote_ip_address (req.header (codes "X-Forwarded-For"))
]

-- The origin, or else the referer, begins with a configured origin or names the host.
unfoldable pub is_origin_ok : List Bytes → Request → Bool
is_origin_ok origins req =
    let origin = req.header (codes "Origin") in
    let check_url = if is_empty origin then req.header (codes "Referer") else origin in
    let host = req.header (codes "Host") in
    any (found_at_start check_url) origins || (not (is_empty host) && contains check_url host)

-- An API key, or neither origin nor referer: no browser sends the request.
unfoldable pub needs_origin : Request → Bool
needs_origin req =
    is_empty (req.header (codes "X-API-Key"))
    && (not (is_empty (req.header (codes "Origin")))
        || not (is_empty (req.header (codes "Referer"))))

unfoldable pub is_csrf_blocked : List Bytes → Request → Bool
is_csrf_blocked origins req =
    is_write req.method && needs_origin req && not (is_origin_ok origins req)

abbrev pub json_type : Response → Response
json_type res = add_header (codes "Content-Type") (codes "application/json") res

-- The CSRF check and the body size check.
unfoldable pub check_request : SecurityMiddleware → Request → Response → Response
check_request m req res =
    if is_csrf_blocked m.cors_origins req
    then finish 403 (write (codes "{\"error\":\"cross-origin request blocked\"}") (json_type res))
    else if ltb m.max_body_size (length req.body)
    then finish 413 (write (codes "{\"error\":\"payload too large\"}") (json_type res))
    else res

abbrev pub too_many : Response → Response
too_many res = finish 429 (
    write (codes "{\"error\":\"too many requests\"}")
      (add_header (codes "Retry-After") (codes "60") (json_type res)))

-- The rate limit check, and what follows it. The three times are those that `allowRequest` reads.
unfoldable pub limit_request :
    SecurityMiddleware
    → Option RateLimiter
    → Request
    → Response
    → (ban_now refill_now violation_now : ℕ) → SecurityMiddleware × Response
limit_request m none req res ban_now refill_now violation_now = (m, check_request m req res)
limit_request m (some r) req res ban_now refill_now violation_now =
    let (r', allowed) =
      allow_request r (client_ip_of m req) (is_write req.method) ban_now refill_now violation_now in
    if allowed
    then (record m { rate_limiter = some r' }, check_request m req res)
    else (record m { rate_limiter = some r' }, too_many res)

unfoldable pub before_handle :
    SecurityMiddleware
    → Request
    → Response
    → (ban_now refill_now violation_now : ℕ) → SecurityMiddleware × Response
before_handle m req res ban_now refill_now violation_now =
    if is_options req.method
    then (m, preflight m.cors_origins (req.header (codes "Origin")) res)
    else limit_request m m.rate_limiter req res ban_now refill_now violation_now

unfoldable pub add_security_headers : Response → Response
add_security_headers res =
    add_header (codes "Content-Security-Policy")
      (codes
        "default-src 'self'; script-src 'self'; style-src 'self' 'unsafe-inline' https://fonts.googleapis.com; font-src 'self' https://fonts.gstatic.com; img-src 'self' data:; connect-src 'self'")
      (add_header (codes "Referrer-Policy") (codes "strict-origin-when-cross-origin") (
        add_header (codes "X-XSS-Protection") (codes "1; mode=block") (
          add_header (codes "X-Frame-Options") (codes "DENY")
            (add_header (codes "X-Content-Type-Options") (codes "nosniff") res))))

unfoldable pub after_handle : SecurityMiddleware → Request → Response → Response
after_handle m req res =
    let origin = req.header (codes "Origin") in
    let secured = add_security_headers res in
    if is_listed m.cors_origins origin
    then add_header (codes "Access-Control-Allow-Credentials") (codes "true")
        (add_header (codes "Access-Control-Allow-Origin") origin secured)
    else secured

-- `dump` is the printer of nlohmann::json.
unfoldable pub json_error : (dump : Json → Bytes) → ℕ → (message : Bytes) → Response
json_error dump code message =
    write (dump (object (field (codes "error") (string message) end)))
      (json_type (new_response code))

unfoldable pub json_success : (json_body : Bytes) → Response
json_success json_body = write json_body (json_type (new_response 200))
