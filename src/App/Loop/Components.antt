-- ===== src/App/Loop/Components.antt =====
-- How the components evolve while the threads interleave.
use project_tracker.Base.{ℕ, ◌+◌, ◌≡◌, refl, sym, ◌∙◌, ap, leb, if_cases, List, [], ◌∷◌, ◌++◌}
use project_tracker.RateLimiter.{cleanup_old_clients}
use project_tracker.Auth.{clean_expired_sessions}
use project_tracker.App.Loop.{
  Place, head, asleep, before_clients, before_sessions, stopped, App, Event, main_steps, signals,
  limits, authenticates, stores, count, advance, step, run,
}

-- The calls of the rate limiter that a run makes, the cleanups of `main` at their places.
unfoldable pub limiter_step : App → Event → List project_tracker.RateLimiter.Bounds.Call
limiter_step a (main_steps now) = elim a.place [
  | head ↦ []
  | asleep ↦ []
  | before_clients ↦ project_tracker.RateLimiter.Bounds.cleans now ∷ []
  | before_sessions ↦ []
  | stopped ↦ []
]
limiter_step a (signals n) = []
limiter_step a (limits c) = c ∷ []
limiter_step a (authenticates c) = []
limiter_step a (stores c) = []

-- The calls of the session manager.
unfoldable pub auth_step : App → Event → List project_tracker.Auth.Limits.Call
auth_step a (main_steps now) = elim a.place [
  | head ↦ []
  | asleep ↦ []
  | before_clients ↦ []
  | before_sessions ↦ project_tracker.Auth.Limits.cleans now ∷ []
  | stopped ↦ []
]
auth_step a (signals n) = []
auth_step a (limits c) = []
auth_step a (authenticates c) = c ∷ []
auth_step a (stores c) = []

-- The calls of the database, none of which is made by `main`.
unfoldable pub db_step : Event → List project_tracker.Db.Calls.Call
db_step (main_steps now) = []
db_step (signals n) = []
db_step (limits c) = []
db_step (authenticates c) = []
db_step (stores c) = c ∷ []

unfoldable pub limiter_calls : App → List Event → List project_tracker.RateLimiter.Bounds.Call
limiter_calls a [] = []
limiter_calls a (e ∷ es) = limiter_step a e ++ limiter_calls (step a e) es

unfoldable pub auth_calls : App → List Event → List project_tracker.Auth.Limits.Call
auth_calls a [] = []
auth_calls a (e ∷ es) = auth_step a e ++ auth_calls (step a e) es

unfoldable pub db_calls : List Event → List project_tracker.Db.Calls.Call
db_calls [] = []
db_calls (e ∷ es) = db_step e ++ db_calls es

-- Each component is where its own calls of the step lead.
abbrev Projects : App → Event → App → Type 0
Projects a e b =
    (b.rate_limiter ≡ project_tracker.RateLimiter.Bounds.run a.rate_limiter (limiter_step a e))
    × (b.server.auth ≡ project_tracker.Auth.Limits.run a.server.auth (auth_step a e))
    × (b.server.db ≡ project_tracker.Db.Calls.run a.server.db (db_step e))

advance-Projects :
    (p : Place) (a : App) (now : ℕ) → a.place ≡ p → Projects a (main_steps now) (advance p a now)
unfolding advance count limiter_step auth_step db_step project_tracker.RateLimiter.Bounds.run
    project_tracker.RateLimiter.Bounds.step project_tracker.Auth.Limits.run
    project_tracker.Auth.Limits.step project_tracker.Db.Calls.run
advance-Projects head a now e =
    if_cases (Projects a (main_steps now)) a.shutdown_requested _ _ (λ _. rw e (refl, refl, refl))
      (λ _. rw e (refl, refl, refl))
advance-Projects asleep a now e =
    if_cases (Projects a (main_steps now)) (leb 300 (a.cleanup_counter + 1)) _ _
      (λ _. rw e (refl, refl, refl)) (λ _. rw e (refl, refl, refl))
advance-Projects before_clients a now e = rw e (refl, refl, refl)
advance-Projects before_sessions a now e = rw e (refl, refl, refl)
advance-Projects stopped a now e = rw e (refl, refl, refl)

step-Projects : (a : App) (e : Event) → Projects a e (step a e)
unfolding step limiter_step auth_step db_step project_tracker.RateLimiter.Bounds.run
    project_tracker.Auth.Limits.run project_tracker.Db.Calls.run
step-Projects a (main_steps now) = advance-Projects a.place a now refl
step-Projects a (signals n) = (refl, refl, refl)
step-Projects a (limits c) = (refl, refl, refl)
step-Projects a (authenticates c) = (refl, refl, refl)
step-Projects a (stores c) = (refl, refl, refl)

limiter-run-append :
    (r : project_tracker.RateLimiter.RateLimiter)
    (cs ds : List project_tracker.RateLimiter.Bounds.Call)
    → project_tracker.RateLimiter.Bounds.run r (cs ++ ds)
      ≡ project_tracker.RateLimiter.Bounds.run (project_tracker.RateLimiter.Bounds.run r cs) ds
unfolding project_tracker.RateLimiter.Bounds.run
limiter-run-append r [] ds = refl
limiter-run-append r (c ∷ cs) ds =
    limiter-run-append (project_tracker.RateLimiter.Bounds.step r c) cs ds

auth-run-append :
    (a : project_tracker.Auth.Auth) (cs ds : List project_tracker.Auth.Limits.Call)
    → project_tracker.Auth.Limits.run a (cs ++ ds)
      ≡ project_tracker.Auth.Limits.run (project_tracker.Auth.Limits.run a cs) ds
unfolding project_tracker.Auth.Limits.run
auth-run-append a [] ds = refl
auth-run-append a (c ∷ cs) ds = auth-run-append (project_tracker.Auth.Limits.step a c) cs ds

db-run-append :
    (db : project_tracker.Db.Database) (cs ds : List project_tracker.Db.Calls.Call)
    → project_tracker.Db.Calls.run db (cs ++ ds)
      ≡ project_tracker.Db.Calls.run (project_tracker.Db.Calls.run db cs) ds
unfolding project_tracker.Db.Calls.run
db-run-append db [] ds = refl
db-run-append db (c ∷ cs) ds = db-run-append (project_tracker.Db.Calls.step db c).0 cs ds

-- In every interleaving of the threads each component ends as if it had been alone: the rate limiter
-- and the sessions after their own calls in their order, with the cleanups of `main` among them, and
-- the database after its own, which are the other threads' alone.
pub run-components :
    (a : App) (es : List Event)
    → ((run a es).rate_limiter
        ≡ project_tracker.RateLimiter.Bounds.run a.rate_limiter (limiter_calls a es))
      × ((run a es).server.auth ≡ project_tracker.Auth.Limits.run a.server.auth (auth_calls a es))
      × ((run a es).server.db ≡ project_tracker.Db.Calls.run a.server.db (db_calls es))
unfolding run limiter_calls auth_calls db_calls project_tracker.RateLimiter.Bounds.run
    project_tracker.Auth.Limits.run project_tracker.Db.Calls.run
run-components a [] = (refl, refl, refl)
run-components a (e ∷ es) =
    let (limiter, auth, db) = step-Projects a e in
    let (limiters, auths, dbs) = run-components (step a e) es in
    (
      limiters
          ∙ (ap (λ r. project_tracker.RateLimiter.Bounds.run r (limiter_calls (step a e) es))
                limiter
              ∙ sym (limiter-run-append a.rate_limiter (limiter_step a e) _)),
      auths
          ∙ (ap (λ r. project_tracker.Auth.Limits.run r (auth_calls (step a e) es)) auth
              ∙ sym (auth-run-append a.server.auth (auth_step a e) _)),
      dbs
          ∙ (ap (λ r. project_tracker.Db.Calls.run r (db_calls es)) db
              ∙ sym (db-run-append a.server.db (db_step e) _)),
    )
