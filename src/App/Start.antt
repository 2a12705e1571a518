-- ===== src/App/Start.antt =====
-- What the server starts with.
use project_tracker.Base.{
  ℕ, ◌^◌, ◌≤◌, ◌<◌, ◌≡◌, refl, Bool, true, false, Option, none, some, [], arith, length, is_empty,
  if_cases, option_cases, subst, bytes_eq, ℤ, pos, negsuc, Bytes, codes,
}
use project_tracker.Base.Dict.{lookup}
use project_tracker.Config.{
  Config, new_config, load, get, get_int, get_bool, has_section, has_key, value_at,
}
use project_tracker.Validator.{stoi}
use project_tracker.Validator.Ranges.{InRange, stoi-GivesInRange}
use project_tracker.Logger.{info}
use project_tracker.Auth.{Auth, new_auth, is_authorized, validate_api_key}
use project_tracker.RateLimiter.{new_limiter}
use project_tracker.Sanitizer.{default_extensions}
use project_tracker.Http.{
  SecurityMiddleware, Request, Response, new_middleware, check_request, is_csrf_blocked,
}
use project_tracker.App.{
  Settings, settings_of, configure, log_level_of, auth_of, limiter_of, middleware_of, extensions_of,
  with_proxies, with_origins, key_or_empty,
}

has_key-no_section :
    (c : Config) (section key : Bytes)
    → lookup section c.sections ≡ none
    → has_key c section key ≡ false
unfolding has_key has_section
has_key-no_section c section key h = rw h refl

get-no_section :
    (c : Config) (section key fallback : Bytes)
    → lookup section c.sections ≡ none
    → get c section key fallback ≡ fallback
unfolding get
get-no_section c section key fallback h = rw (has_key-no_section c section key h) refl

get_int-no_section :
    (c : Config) (section key : Bytes) (fallback : ℤ)
    → lookup section c.sections ≡ none
    → get_int c section key fallback ≡ fallback
unfolding get_int
get_int-no_section c section key fallback h = rw (has_key-no_section c section key h) refl

get_bool-no_section :
    (c : Config) (section key : Bytes) (fallback : Bool)
    → lookup section c.sections ≡ none
    → get_bool c section key fallback ≡ fallback
unfolding get_bool
get_bool-no_section c section key fallback h = rw (has_key-no_section c section key h) refl

-- Without settings the server runs with the defaults that the classes have of their own: the rate
-- limiter's, the sessions', the middleware's and the extension list's; it logs at INFO, opens
-- /data/projects.db and listens on port 8080.
pub settings_of-no_section :
    (c : Config) (key : Option Bytes)
    → lookup (codes "env") c.sections ≡ none
    → settings_of c key ≡ record {
      log_level = info;
      auth = project_tracker.Auth.init new_auth (key_or_empty key);
      middleware = record new_middleware { rate_limiter = some new_limiter };
      extensions = default_extensions;
      db_path = codes "/data/projects.db";
      port = pos 8080;
    }
unfolding settings_of log_level_of auth_of limiter_of middleware_of extensions_of with_proxies
    with_origins project_tracker.Auth.config_sessions project_tracker.Auth.init
    project_tracker.RateLimiter.init bytes_eq
settings_of-no_section c key h = simp (
  get-no_section c (codes "env") _ _ h,
  get_int-no_section c (codes "env") _ _ h,
  get_bool-no_section c (codes "env") _ _ h,
)

-- A setting read as an `int` is one, if its default is.
get_int-InRange :
    (c : Config) (section key : Bytes) (fallback : ℤ)
    → InRange fallback
    → InRange (get_int c section key fallback)
unfolding get_int
get_int-InRange c section key fallback h =
    let text = value_at c section key in
    if_cases InRange (has_key c section key) _ _
      (λ _. option_cases InRange (stoi text) _ _ h (λ v e. stoi-GivesInRange text v e)) (λ _. h)

max_body_size-negative :
    (c : Config) (n : ℕ)
    → get_int c (codes "env") (codes "MAX_BODY_SIZE") (pos 10485760) ≡ negsuc n
    → 2 ^ 63 ≤ (middleware_of c).max_body_size
unfolding middleware_of with_origins
max_body_size-negative c n e =
    let range =
      get_int-InRange c (codes "env") (codes "MAX_BODY_SIZE") (pos 10485760) (ground arith) in
    let least : InRange (negsuc n) = subst InRange e range in
    if_cases (λ (m : SecurityMiddleware). 2 ^ 63 ≤ m.max_body_size)
      (is_empty (get c (codes "env") (codes "CORS_ORIGINS") [])) _ _ (λ _. rw e (omega arith))
      (λ _. rw e (omega arith))

validate_api_key-disabled :
    (a : Auth) (header : Bytes) → a.auth_enabled ≡ false → validate_api_key a header ≡ true
unfolding validate_api_key
validate_api_key-disabled a header h = rw h refl

-- What `main` keeps of the settings, where it starts the server.
configure-some :
    (file key : Option Bytes) (opens : Bytes → Bool) (s : Settings)
    → configure file key opens ≡ some s
    → (c : Config) × (settings_of c key ≡ s)
unfolding configure
configure-some file key opens s =
    option_cases (λ r. r ≡ some s → (c : Config) × (settings_of c key ≡ s)) (load file new_config) _
      _ (λ e. absurd cc)
      λ c _.
        if_cases (λ r. r ≡ some s → (c : Config) × (settings_of c key ≡ s))
          (opens (settings_of c key).db_path) _ _ (λ _ e. (c, cc)) (λ _ e. absurd cc)

configure-disabled :
    (file key : Option Bytes) (opens : Bytes → Bool) (s : Settings)
    → configure file key opens ≡ some s
    → key_or_empty key ≡ []
    → s.auth.auth_enabled ≡ false
unfolding settings_of auth_of project_tracker.Auth.config_sessions project_tracker.Auth.init
configure-disabled file key opens s e unset =
    let (c, same) = configure-some file key opens s e in
    let off : (settings_of c key).auth.auth_enabled ≡ false = rw unset refl in cc

-- A request that passes the CSRF check also passes the body size check, whatever its body below
-- 2^63 bytes, when MAX_BODY_SIZE is negative: as a `size_t` the limit is then 2^64 - 2^31 at least.
pub check_request-negative_size :
    (c : Config) (n : ℕ) (req : Request) (res : Response)
    → get_int c (codes "env") (codes "MAX_BODY_SIZE") (pos 10485760) ≡ negsuc n
    → is_csrf_blocked (middleware_of c).cors_origins req ≡ false
    → length req.body < 2 ^ 63
    → check_request (middleware_of c) req res ≡ res
unfolding check_request
check_request-negative_size c n req res negative passed short =
    ground (arith, max_body_size-negative c n negative)

-- A server started with PROJECT_API_KEY unset or empty takes every text in the X-API-Key header
-- but the empty one for the key.
pub is_authorized-no_key :
    (file key : Option Bytes) (opens : Bytes → Bool) (s : Settings) (header cookie ip : Bytes)
    (now : ℕ)
    → configure file key opens ≡ some s
    → key_or_empty key ≡ []
    → is_empty header ≡ false
    → is_authorized s.auth header cookie ip now ≡ (s.auth, true)
unfolding is_authorized
is_authorized-no_key file key opens s header cookie ip now started unset given =
    rw
      (
        given,
        validate_api_key-disabled s.auth header (configure-disabled file key opens s started unset),
      )
      refl
