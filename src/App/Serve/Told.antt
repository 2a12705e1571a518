-- ===== src/App/Serve/Told.antt =====
-- What the status of a whole request says.
use project_tracker.Base.{◌≡◌, ◌≢◌, refl, sym, subst, inr, true, List, arith, if_cases, Bytes}
use project_tracker.RateLimiter.{allow_request}
use project_tracker.Http.{
  Request, Response, new_response, SecurityMiddleware, is_options, before_handle, limit_request,
  check_request, preflight, after_handle, add_security_headers, is_write, client_ip_of,
}
use project_tracker.Routes.{JsonText}
use project_tracker.Routes.Writes.{Write, request_of}
use project_tracker.Routes.Writes.OneCall.{handle-IsTold}
use project_tracker.Routes.Writes.Outcomes.{IsTold, call_of}
use project_tracker.App.Loop.{App}
use project_tracker.App.Serve.{middleware, Times, guard, serve}

code-after_handle :
    (m : SecurityMiddleware) (req : Request) (res : Response)
    → (after_handle m req res).code ≡ res.code
unfolding after_handle add_security_headers
code-after_handle m req res = ground arith

-- A response that the middleware has ended is no 200.
abbrev EndsOtherwise : Response → Type 0
EndsOtherwise res = res.ended ≡ true → res.code ≢ 200

preflight-EndsOtherwise :
    (origins : List Bytes) (origin : Bytes) (res : Response)
    → EndsOtherwise (preflight origins origin res)
unfolding preflight
preflight-EndsOtherwise origins origin res h e = ground arith

check_request-EndsOtherwise :
    (m : SecurityMiddleware) (req : Request)
    → EndsOtherwise (check_request m req (new_response 200))
unfolding check_request
check_request-EndsOtherwise m req h e = ground arith

guard-EndsOtherwise : (a : App) (req : Request) (ts : Times) → EndsOtherwise (guard a req ts).1
unfolding guard before_handle limit_request
guard-EndsOtherwise a req ts =
    let Q : SecurityMiddleware × Response → Type 0 = λ x. EndsOtherwise x.1 in
    if_cases Q (is_options req.method) _ _ (λ _. preflight-EndsOtherwise _ _ _)
      λ _.
        if_cases Q
          (allow_request a.rate_limiter (client_ip_of (middleware a) req) (is_write req.method)
            ts.ban ts.refill ts.violation).1
          _ _ (λ _. check_request-EndsOtherwise _ _) (λ _ h. omega arith)

module _ (lib : JsonText) where
  -- The status of a request's answer tells the truth: 200 means that the database has done the
  -- very call that the request asks for, and reported it done; any other status, whether of the
  -- middleware or of the handler, that the database is unchanged.
  pub serve-IsTold :
      (a : App) (w : Write) (ts : Times)
      → IsTold a.server.db
          (call_of lib w ts.now)
          (serve lib a w ts).0.server.db
          (serve lib a w ts).1.code
  unfolding serve
  serve-IsTold a w ts =
      if_cases
        (λ (r : App × Response). IsTold a.server.db (call_of lib w ts.now) r.0.server.db r.1.code)
        (guard a (request_of w) ts).1.ended _ _
        (λ e. inr (
          subst (λ n. n ≢ 200) (sym (code-after_handle _ _ _))
              (guard-EndsOtherwise a (request_of w) ts e),
          refl,
        ))
        (λ _.
          subst (IsTold a.server.db (call_of lib w ts.now) _) (sym (code-after_handle _ _ _))
            (handle-IsTold lib a.server w ts.clock ts.now))
