-- ===== src/App/Serve/Headers.antt =====
-- The headers of every answer.
use project_tracker.Base.{
  ◌≡◌, subst, if_cases, if◌then◌else◌, Bool-cases, inl, inr, List, [], ◌∷◌, ◌++◌, Bytes, codes,
  append_assoc,
}
use project_tracker.Http.{
  Request, Response, SecurityMiddleware, after_handle, add_security_headers, is_listed,
}
use project_tracker.Routes.{JsonText}
use project_tracker.Routes.Writes.{Write, request_of, handle}
use project_tracker.App.Loop.{App}
use project_tracker.App.Serve.Steps.{guard-cors_origins}
use project_tracker.App.Serve.{Times, guard, serve}

-- What every answer is to tell the browser.
abbrev pub security_headers : List (Bytes × Bytes)
security_headers =
    (codes "X-Content-Type-Options", codes "nosniff")
    ∷ (codes "X-Frame-Options", codes "DENY")
    ∷ (codes "X-XSS-Protection", codes "1; mode=block")
    ∷ (codes "Referrer-Policy", codes "strict-origin-when-cross-origin")
    ∷ (
      codes "Content-Security-Policy",
      codes
          "default-src 'self'; script-src 'self'; style-src 'self' 'unsafe-inline' https://fonts.googleapis.com; font-src 'self' https://fonts.gstatic.com; img-src 'self' data:; connect-src 'self'",
    )
    ∷ []

-- The grant to a listed origin.
abbrev pub grant : List Bytes → (origin : Bytes) → List (Bytes × Bytes)
grant origins origin =
    if is_listed origins origin
    then (codes "Access-Control-Allow-Origin", origin)
      ∷ (codes "Access-Control-Allow-Credentials", codes "true")
      ∷ []
    else []

abbrev pub IsSecured : List Bytes → Request → (before : List (Bytes × Bytes)) → Response → Type 0
IsSecured origins req before res =
    res.headers ≡ before ++ (security_headers ++ grant origins (req.header (codes "Origin")))

after_handle-IsSecured :
    (m : SecurityMiddleware) (req : Request) (res : Response)
    → IsSecured m.cors_origins req res.headers (after_handle m req res)
unfolding after_handle add_security_headers
after_handle-IsSecured m req res =
    elim (Bool-cases (is_listed m.cors_origins (req.header (codes "Origin")))) [
      | inl e ↦ simp (e, append_assoc)
      | inr e ↦ simp (e, append_assoc)
    ]

-- Every answer to a writing request carries the five security headers, and the grant to an origin
-- that is listed, the answers of the middleware included; they come last and are not altered.
pub serve-IsSecured :
    (lib : JsonText) (a : App) (w : Write) (ts : Times)
    → (before : List (Bytes × Bytes)) × IsSecured a.cors_origins
        (request_of w)
        before
        (serve lib a w ts).1
unfolding serve
serve-IsSecured lib a w ts =
    let req = request_of w in
    let m = (guard a req ts).0 in
    let secured : (res : Response)
        → IsSecured a.cors_origins req res.headers (after_handle m req res) =
      λ res.
        subst (λ o. IsSecured o req res.headers (after_handle m req res))
          (guard-cors_origins a req ts) (after_handle-IsSecured m req res) in
    if_cases
      (λ (r : App × Response).
        (before : List (Bytes × Bytes)) × IsSecured a.cors_origins req before r.1)
      (guard a req ts).1.ended _ _ (λ _. (_, secured (guard a req ts).1))
      (λ _. (_, secured (handle lib a.server w ts.clock ts.now).1))
