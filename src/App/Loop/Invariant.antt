-- ===== src/App/Loop/Invariant.antt =====
-- What holds while the server runs.
use project_tracker.Base.{
  ℕ, ◌+◌, leb, if_cases, Option, List, [], ◌∷◌, arith, Bytes, codes, is_empty,
}
use project_tracker.Config.{Config, get}
use project_tracker.Db.{Database}
use project_tracker.RateLimiter.{cleanup_old_clients}
use project_tracker.RateLimiter.Bounds.{IsCapped, step-IsCapped}
use project_tracker.Auth.Limits.{IsBounded, step-IsBounded}
use project_tracker.Db.Calls.Invariant.{WellFormed, step-WellFormed}
use project_tracker.App.{auth_of, limiter_of, with_proxies}
use project_tracker.App.Loop.{
  started, Place, head, asleep, before_clients, before_sessions, stopped, App, Event, main_steps,
  signals, limits, authenticates, stores, count, advance, step, run,
}

-- The constraints of the schema hold, the sessions are within their limit, and no bucket of the
-- rate limiter holds more than the burst.
abbrev pub IsSound : App → Type 0
IsSound a = WellFormed a.server.db × IsBounded a.server.auth × IsCapped a.rate_limiter

advance-IsSound : (p : Place) (a : App) (now : ℕ) → IsSound a → IsSound (advance p a now)
unfolding advance count project_tracker.RateLimiter.Bounds.step project_tracker.Auth.Limits.step
advance-IsSound head a now h = if_cases IsSound a.shutdown_requested _ _ (λ _. h) (λ _. h)
advance-IsSound asleep a now h =
    if_cases IsSound (leb 300 (a.cleanup_counter + 1)) _ _ (λ _. h) (λ _. h)
advance-IsSound before_clients a now (db, auth, limiter) =
    (db, auth, step-IsCapped a.rate_limiter (project_tracker.RateLimiter.Bounds.cleans now) limiter)
advance-IsSound before_sessions a now (db, auth, limiter) =
    (db, step-IsBounded a.server.auth (project_tracker.Auth.Limits.cleans now) auth, limiter)
advance-IsSound stopped a now h = h

step-IsSound : (a : App) (e : Event) → IsSound a → IsSound (step a e)
unfolding step
step-IsSound a (main_steps now) h = advance-IsSound a.place a now h
step-IsSound a (signals n) h = h
step-IsSound a (limits c) (db, auth, limiter) = (db, auth, step-IsCapped a.rate_limiter c limiter)
step-IsSound a (authenticates c) (db, auth, limiter) =
    (db, step-IsBounded a.server.auth c auth, limiter)
step-IsSound a (stores c) (db, auth, limiter) = (step-WellFormed a.server.db c db, auth, limiter)

run-IsSound : (a : App) (es : List Event) → IsSound a → IsSound (run a es)
unfolding run
run-IsSound a [] h = h
run-IsSound a (e ∷ es) h = run-IsSound (step a e) es (step-IsSound a e h)

started-IsSound :
    (c : Config) (key : Option Bytes) (db : Database) → WellFormed db → IsSound (started c key db)
unfolding started auth_of project_tracker.Auth.config_sessions project_tracker.Auth.init limiter_of
    with_proxies project_tracker.RateLimiter.init
started-IsSound c key db v = (
  v,
  omega arith,
  if_cases IsCapped (is_empty (get c (codes "env") (codes "TRUSTED_PROXIES") [])) _ _ (λ _. tt)
      (λ _. tt),
)

-- Whatever the settings, a server that starts on well-formed tables keeps them well-formed, its
-- sessions within their limit and its buckets within the burst, in every interleaving of the calls
-- of its threads with the cleanups.
pub run-started-IsSound :
    (c : Config) (key : Option Bytes) (db : Database) (es : List Event)
    → WellFormed db
    → IsSound (run (started c key db) es)
run-started-IsSound c key db es v = run-IsSound (started c key db) es (started-IsSound c key db v)
