-- ===== src/Http/Guards.antt =====
-- What has held when a request reaches its handler.
use project_tracker.Base.{
  ℕ, ◌≡◌, ◌≤◌, refl, sym, ◌∙◌, Bool, true, false, Option, none, some, List, [], arith, if_cases,
  Bytes, codes, length,
}
use project_tracker.RateLimiter.{RateLimiter, allow_request}
use project_tracker.Http.{
  Request, Response, SecurityMiddleware, is_write, is_options, is_csrf_blocked, check_request,
  limit_request, before_handle, client_ip_of, preflight, is_listed,
}

-- The rate limiter, if there is one, has let the request pass.
abbrev pub IsWithinRate : Option RateLimiter → Bytes → Bool → ℕ → ℕ → ℕ → Type 0
IsWithinRate none ip w t u v = Unit
IsWithinRate (some r) ip w t u v = (allow_request r ip w t u v).1 ≡ true

check_request-passed :
    (m : SecurityMiddleware) (req : Request) (res : Response)
    → (check_request m req res).ended ≡ false
    → (is_csrf_blocked m.cors_origins req ≡ false)
      × (length req.body ≤ m.max_body_size)
      × (check_request m req res ≡ res)
unfolding check_request
check_request-passed m req res h = ground arith

limit_request-passed :
    (m : SecurityMiddleware) (o : Option RateLimiter) (req : Request) (res : Response) (t u v : ℕ)
    → (limit_request m o req res t u v).1.ended ≡ false
    → IsWithinRate o (client_ip_of m req) (is_write req.method) t u v
      × ((check_request m req res).ended ≡ false)
      × ((limit_request m o req res t u v).1 ≡ check_request m req res)
unfolding limit_request
limit_request-passed m none req res t u v h = (tt, h, refl)
limit_request-passed m (some r) req res t u v h = ground arith

preflight-ended :
    (origins : List Bytes) (origin : Bytes) (res : Response)
    → (preflight origins origin res).ended ≡ true
unfolding preflight
preflight-ended origins origin res = ground arith

-- With no origins configured, a preflight request of any origin is granted, credentials included:
-- it gets the same answer as an origin that is listed.
pub preflight-no_origins :
    (origins : List Bytes) (origin : Bytes) (res : Response)
    → is_listed origins origin ≡ true
    → preflight [] origin res ≡ preflight origins origin res
unfolding preflight
preflight-no_origins origins origin res h = ground arith

-- A request whose response the middleware has not ended is no preflight, was within the rate limit,
-- is not blocked as a cross-origin write, and has a body of at most the configured size; the
-- response is still untouched.
pub before_handle-passed :
    (m : SecurityMiddleware) (req : Request) (res : Response) (t u v : ℕ)
    → (before_handle m req res t u v).1.ended ≡ false
    → (is_options req.method ≡ false)
      × IsWithinRate m.rate_limiter (client_ip_of m req) (is_write req.method) t u v
      × (is_csrf_blocked m.cors_origins req ≡ false)
      × (length req.body ≤ m.max_body_size)
      × ((before_handle m req res t u v).1 ≡ res)
unfolding before_handle
before_handle-passed m req res t u v =
    if_cases
      (λ (x : SecurityMiddleware × Response).
        x.1.ended ≡ false
        → (is_options req.method ≡ false)
          × IsWithinRate m.rate_limiter (client_ip_of m req) (is_write req.method) t u v
          × (is_csrf_blocked m.cors_origins req ≡ false)
          × (length req.body ≤ m.max_body_size)
          × (x.1 ≡ res))
      (is_options req.method) _ _
      (λ _ h.
        let no : true ≡ false =
          sym (preflight-ended m.cors_origins (req.header (codes "Origin")) res) ∙ h in
        absurd cc)
      (λ n h.
        let (rate, passed, same) = limit_request-passed m m.rate_limiter req res t u v h in
        let (csrf, size, still) = check_request-passed m req res passed in
        (n, rate, csrf, size, cc))
