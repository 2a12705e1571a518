-- ===== src/App/Serve.antt =====
-- A writing request from end to end: src/http/middleware.cpp in front of and behind the handlers of
-- src/routes/, as Crow calls them: `before_handle` first, the handler unless the response has been
-- ended, and `after_handle` in both cases.
pub mod Headers
pub mod Steps
pub mod Told
use project_tracker.Base.{
  ℕ, ◌≡◌, ◌≤◌, refl, ◌⊎◌, inl, inr, Bool, true, false, if◌then◌else◌, if_cases, Option, none, some,
  List, [], ◌∷◌, ◌++◌, Bytes, codes, length, Bool-cases,
}
use project_tracker.RateLimiter.{RateLimiter, allow_request}
use project_tracker.Http.{
  Request, Response, new_response, SecurityMiddleware, is_write, is_options, is_csrf_blocked,
  client_ip_of, before_handle, limit_request, after_handle, add_security_headers, is_listed,
}
use project_tracker.Http.Guards.{IsWithinRate, before_handle-passed}
use project_tracker.Routes.{JsonText, Server}
use project_tracker.Routes.Writes.{
  Write, request_of, handle, may_write, IsUnauthorized, handle-IsUnauthorized,
}
use project_tracker.Routes.Writes.OneCall.{checked, IsOneCall, handle-IsOneCall}
use project_tracker.App.Loop.{App, Event, limits, authenticates, stores, step, run}

-- What the middleware sees of the server.
abbrev pub middleware : App → SecurityMiddleware
middleware a = record {
  rate_limiter = some a.rate_limiter;
  max_body_size = a.max_body_size;
  cors_origins = a.cors_origins;
}

abbrev pub limiter_or : RateLimiter → Option RateLimiter → RateLimiter
limiter_or r none = r
limiter_or r (some s) = s

-- The readings of the clock in a request: three of the rate limiter, one of the session check, and
-- the text of the time that the database writes.
pub record Times : Type 0 where
  pub ban : ℕ
  pub refill : ℕ
  pub violation : ℕ
  pub clock : ℕ
  pub now : Bytes

unfoldable pub guard : App → Request → Times → SecurityMiddleware × Response
guard a req ts = before_handle (middleware a) req (new_response 200) ts.ban ts.refill ts.violation

-- A request that a server may carry out: no preflight, within the rate limit, no cross-origin
-- write, not larger than the limit, and with a valid key or a live session.
abbrev pub IsAdmitted : App → Request → Times → Type 0
IsAdmitted a req ts =
    (is_options req.method ≡ false)
    × ((allow_request a.rate_limiter (client_ip_of (middleware a) req) (is_write req.method) ts.ban
          ts.refill ts.violation).1
        ≡ true)
    × (is_csrf_blocked a.cors_origins req ≡ false)
    × (length req.body ≤ a.max_body_size)
    × (may_write a.server req ts.clock ≡ true)

module _ (lib : JsonText) where
  -- The request, with no step of another thread in between.
  unfoldable pub serve : App → Write → Times → App × Response
  unfolding guard
  serve a w ts =
      let (m, res) = guard a (request_of w) ts in
      let (srv, answer) = handle lib a.server w ts.clock ts.now in
      let b = record a { rate_limiter = limiter_or a.rate_limiter m.rate_limiter } in
      if res.ended
      then (b, after_handle m (request_of w) res)
      else (record b { server = srv }, after_handle m (request_of w) answer)

  -- A writing request changes the database only if it is no preflight, was within the rate limit,
  -- is not blocked as a cross-origin write, has a body of at most the configured size, and comes
  -- with the key or with a live session.
  pub serve-IsAdmitted :
      (a : App) (w : Write) (ts : Times)
      → ((serve a w ts).0.server.db ≡ a.server.db) ⊎ IsAdmitted a (request_of w) ts
  unfolding serve guard
  serve-IsAdmitted a w ts = elim (Bool-cases (guard a (request_of w) ts).1.ended) [
    | inl e ↦ inl (rw e refl)
    | inr e ↦ elim (Bool-cases (may_write a.server (request_of w) ts.clock)) [
      | inl may ↦
          let (method, rate, csrf, size, same) =
            before_handle-passed (middleware a) (request_of w) (new_response 200) ts.ban ts.refill
              ts.violation e in
          inr (method, rate, csrf, size, may)
      | inr not ↦ inl (rw e (handle-IsUnauthorized lib a.server w ts.clock ts.now not).1)
    ]
  ]
