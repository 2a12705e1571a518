-- ===== src/App/Serve/Steps.antt =====
-- A request as a run of steps.
use project_tracker.Base.{
  All, ◌+◌, sym, subst, ℕ, ◌≡◌, ◌≤◌, refl, ap, ◌⊎◌, inl, inr, if_cases, List, [], ◌∷◌, arith,
  length, codes,
}
use project_tracker.RateLimiter.{RateLimiter, allow_request}
use project_tracker.RateLimiter.Bounds.{requests}
use project_tracker.Auth.Limits.{authorizes}
use project_tracker.Http.{
  Request, Response, SecurityMiddleware, is_write, is_options, client_ip_of, before_handle,
  limit_request,
}
use project_tracker.Routes.{JsonText, Server}
use project_tracker.Routes.Writes.{Write, request_of, handle}
use project_tracker.Routes.Writes.OneCall.{handle-IsOneCall}
use project_tracker.App.Loop.{
  App, Event, main_steps, signals, limits, authenticates, stores, step, run,
}
use project_tracker.App.Serve.{middleware, limiter_or, Times, guard, serve}

-- The step that the rate limiter makes for a request.
abbrev limiting : App → Request → Times → Event
limiting a req ts =
    limits (
      requests (client_ip_of (middleware a) req) (is_write req.method) ts.ban ts.refill
        ts.violation)

guard-IsStep :
    (a : App) (req : Request) (ts : Times)
    → ((guard a req ts).0 ≡ middleware a)
      ⊎ ((guard a req ts).0 ≡ middleware (step a (limiting a req ts)))
unfolding guard before_handle limit_request step project_tracker.RateLimiter.Bounds.step
guard-IsStep a req ts =
    let Q : SecurityMiddleware × Response → Type 0 =
      λ x. (x.0 ≡ middleware a) ⊎ (x.0 ≡ middleware (step a (limiting a req ts))) in
    if_cases Q (is_options req.method) _ _ (λ _. inl refl)
      λ _.
        if_cases Q
          (allow_request a.rate_limiter (client_ip_of (middleware a) req) (is_write req.method)
            ts.ban ts.refill ts.violation).1
          _ _ (λ _. inr refl) (λ _. inr refl)

pub guard-cors_origins :
    (a : App) (req : Request) (ts : Times) → (guard a req ts).0.cors_origins ≡ a.cors_origins
unfolding step
guard-cors_origins a req ts = elim (guard-IsStep a req ts) [
  | inl e ↦ ap (λ m. m.cors_origins) e
  | inr e ↦ ap (λ m. m.cors_origins) e
]

server_eq :
    {s t : Server}
    → t.auth ≡ s.auth
    → t.db ≡ s.db
    → t.allowed_extensions ≡ s.allowed_extensions
    → s ≡ t
server_eq p q r = λ i. record { auth = sym p i; db = sym q i; allowed_extensions = sym r i }

-- A step of the server's threads, which is a call of a component.
abbrev pub IsCall : Event → Type 0
IsCall (main_steps now) = ⊥
IsCall (signals n) = ⊥
IsCall (limits c) = Unit
IsCall (authenticates c) = Unit
IsCall (stores c) = Unit

-- At most `k` calls lead from the one state to the other.
abbrev pub Reaches : ℕ → App → App → Type 0
Reaches k a b = (es : List Event) × (length es ≤ k) × All IsCall es × (run a es ≡ b)

after_step :
    (k : ℕ) (a b : App) (e : Event) → IsCall e → Reaches k (step a e) b → Reaches (k + 1) a b
unfolding run
after_step k a b e h (es, few, calls, end) = (e ∷ es, omega arith, (h, calls), end)

-- The state with another rate limiter.
abbrev limited : App → RateLimiter → App
limited a r = record a { rate_limiter = r }

-- What the request leaves of the rate limiter is what its step makes of it, or it is untouched.
limited-Reaches :
    (a : App) (req : Request) (ts : Times) (k : ℕ) (f : RateLimiter → App)
    → ((r : RateLimiter) → Reaches k (limited a r) (f r))
    → Reaches (k + 1) a (f (limiter_or a.rate_limiter (guard a req ts).0.rate_limiter))
unfolding step project_tracker.RateLimiter.Bounds.step
limited-Reaches a req ts k f reach = elim (guard-IsStep a req ts) [
  | inl e ↦
      let (es, few, calls, end) = reach a.rate_limiter in
      subst
        (λ (m : SecurityMiddleware).
          Reaches (k + 1) a (f (limiter_or a.rate_limiter m.rate_limiter)))
        (sym e) (es, omega arith, calls, end)
  | inr e ↦
      subst
        (λ (m : SecurityMiddleware).
          Reaches (k + 1) a (f (limiter_or a.rate_limiter m.rate_limiter)))
        (sym e) (after_step k a _ (limiting a req ts) tt (reach _))
]

-- The handler's part.
handled-Reaches :
    (lib : JsonText) (a : App) (w : Write) (ts : Times) (r : RateLimiter)
    → Reaches 2
        (limited a r)
        (record (limited a r) { server = (handle lib a.server w ts.clock ts.now).0 })
unfolding run step project_tracker.Auth.Limits.step
handled-Reaches lib a w ts r =
    let req = request_of w in
    let check = authenticates (
      authorizes (req.header (codes "X-API-Key")) (req.header (codes "Cookie"))
        req.remote_ip_address ts.clock) in
    let (auth, extensions, db) = handle-IsOneCall lib a.server w ts.clock ts.now in
    elim db [
      | inl same ↦ (
        check ∷ [],
        omega arith,
        (tt, tt),
        ap (λ s. record (limited a r) { server = s }) (server_eq auth same extensions),
      )
      | inr (c, called) ↦ (
        check ∷ stores c ∷ [],
        omega arith,
        (tt, (tt, tt)),
        ap (λ s. record (limited a r) { server = s }) (server_eq auth called extensions),
      )
    ]

-- A writing request, with no other thread in between, changes the state by three calls of the rate
-- limiter, the sessions and the database at most.
pub serve-Reaches :
    (lib : JsonText) (a : App) (w : Write) (ts : Times) → Reaches 3 a (serve lib a w ts).0
unfolding serve run
serve-Reaches lib a w ts =
    if_cases (λ (r : App × Response). Reaches 3 a r.0) (guard a (request_of w) ts).1.ended _ _
      (λ _. limited-Reaches a (request_of w) ts 2 (limited a) (λ r. ([], omega arith, tt, refl)))
      (λ _.
        limited-Reaches a (request_of w) ts 2
          (λ r. record (limited a r) { server = (handle lib a.server w ts.clock ts.now).0 })
          (handled-Reaches lib a w ts))
