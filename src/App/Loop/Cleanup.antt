-- ===== src/App/Loop/Cleanup.antt =====
-- How often the loop of `main` cleans up.
use project_tracker.Base.{ℕ, ◌+◌, ◌*◌, ◌<◌, ◌≡◌, refl, List, [], ◌∷◌, arith, if_cases, leb}
use project_tracker.App.Loop.{
  Place, head, asleep, before_clients, before_sessions, stopped, App, Event, main_steps, signals,
  limits, authenticates, stores, count, advance, step, run,
}
use project_tracker.App.Loop.Components.{
  limiter_step, auth_step, limiter_calls, auth_calls, run-components,
}

-- Is this a step that ends a sleep?
abbrev pub is_asleep : Place → ℕ
is_asleep head = 0
is_asleep asleep = 1
is_asleep before_clients = 0
is_asleep before_sessions = 0
is_asleep stopped = 0

-- A cleanup has begun that has not reached the clients, or not the sessions.
abbrev pub awaits_clients : Place → ℕ
awaits_clients head = 0
awaits_clients asleep = 0
awaits_clients before_clients = 1
awaits_clients before_sessions = 0
awaits_clients stopped = 0

abbrev pub awaits_sessions : Place → ℕ
awaits_sessions head = 0
awaits_sessions asleep = 0
awaits_sessions before_clients = 1
awaits_sessions before_sessions = 1
awaits_sessions stopped = 0

-- How many seconds `main` sleeps in a run.
unfoldable pub seconds_slept : App → List Event → ℕ
seconds_slept a [] = 0
seconds_slept a (main_steps now ∷ es) =
    is_asleep a.place + seconds_slept (step a (main_steps now)) es
seconds_slept a (signals n ∷ es) = seconds_slept (step a (signals n)) es
seconds_slept a (limits c ∷ es) = seconds_slept (step a (limits c)) es
seconds_slept a (authenticates c ∷ es) = seconds_slept (step a (authenticates c)) es
seconds_slept a (stores c ∷ es) = seconds_slept (step a (stores c)) es

-- The cleanups that the other threads ask for.
unfoldable pub client_cleanups : List Event → ℕ
client_cleanups [] = 0
client_cleanups (main_steps now ∷ es) = client_cleanups es
client_cleanups (signals n ∷ es) = client_cleanups es
client_cleanups (limits c ∷ es) =
    project_tracker.RateLimiter.Bounds.is_cleanup c + client_cleanups es
client_cleanups (authenticates c ∷ es) = client_cleanups es
client_cleanups (stores c ∷ es) = client_cleanups es

unfoldable pub session_cleanups : List Event → ℕ
session_cleanups [] = 0
session_cleanups (main_steps now ∷ es) = session_cleanups es
session_cleanups (signals n ∷ es) = session_cleanups es
session_cleanups (limits c ∷ es) = session_cleanups es
session_cleanups (authenticates c ∷ es) =
    project_tracker.Auth.Limits.is_cleanup c + session_cleanups es
session_cleanups (stores c ∷ es) = session_cleanups es

-- The counter of `b` against that of `a`: what it holds, with 300 for each of the cleanups that were
-- done and for one under way, is what it held, with 300 for the one that was under way, and one more
-- behind a sleep.
abbrev Balances :
    (done_clients done_sessions others_clients others_sessions slept : ℕ) → (a b : App) → Type 0
Balances dc ds oc os slept a b =
    (b.cleanup_counter < 300)
    × (b.cleanup_counter + 300 * (dc + awaits_clients b.place)
        ≡ a.cleanup_counter + 300 * (oc + awaits_clients a.place) + slept)
    × (b.cleanup_counter + 300 * (ds + awaits_sessions b.place)
        ≡ a.cleanup_counter + 300 * (os + awaits_sessions a.place) + slept)

abbrev Ticks : App → (now : ℕ) → (b : App) → Type 0
Ticks a now b =
    Balances (project_tracker.RateLimiter.Bounds.cleanups (limiter_step a (main_steps now)))
      (project_tracker.Auth.Limits.cleanups (auth_step a (main_steps now))) 0 0 (is_asleep a.place)
      a b

advance-Ticks :
    (p : Place) (a : App) (now : ℕ)
    → a.place ≡ p
    → a.cleanup_counter < 300
    → Ticks a now (advance p a now)
unfolding advance count limiter_step auth_step project_tracker.RateLimiter.Bounds.cleanups
    project_tracker.Auth.Limits.cleanups
advance-Ticks head a now e h =
    if_cases (Ticks a now) a.shutdown_requested _ _ (λ _. rw e (h, omega arith, omega arith))
      (λ _. rw e (h, omega arith, omega arith))
advance-Ticks asleep a now e h =
    if_cases (Ticks a now) (leb 300 (a.cleanup_counter + 1)) _ _
      (λ g. rw e (ground arith, ground arith, ground arith))
      (λ g. rw e (ground arith, ground arith, ground arith))
advance-Ticks before_clients a now e h = rw e (h, omega arith, omega arith)
advance-Ticks before_sessions a now e h = rw e (h, omega arith, omega arith)
advance-Ticks stopped a now e h = rw e (h, omega arith, omega arith)

run-Balances :
    (a : App) (es : List Event)
    → a.cleanup_counter < 300
    → Balances
        (project_tracker.RateLimiter.Bounds.cleanups (limiter_calls a es))
        (project_tracker.Auth.Limits.cleanups (auth_calls a es))
        (client_cleanups es)
        (session_cleanups es)
        (seconds_slept a es)
        a
        (run a es)
unfolding run step seconds_slept client_cleanups session_cleanups limiter_calls auth_calls
    limiter_step auth_step project_tracker.RateLimiter.Bounds.cleanups
    project_tracker.Auth.Limits.cleanups
run-Balances a [] h = (h, omega arith, omega arith)
run-Balances a (main_steps now ∷ es) h =
    let b = advance a.place a now in
    let (below, clients, sessions) = advance-Ticks a.place a now refl h in
    let (end, all_clients, all_sessions) = run-Balances b es below in
    (
      end,
      omega (
        arith,
        clients,
        all_clients,
        project_tracker.RateLimiter.Bounds.cleanups-append (limiter_step a (main_steps now))
            (limiter_calls b es),
      ),
      omega (
        arith,
        sessions,
        all_sessions,
        project_tracker.Auth.Limits.cleanups-append (auth_step a (main_steps now))
            (auth_calls b es),
      ),
    )
run-Balances a (signals n ∷ es) h = run-Balances (step a (signals n)) es h
run-Balances a (limits c ∷ es) h =
    let (end, clients, sessions) = run-Balances (step a (limits c)) es h in
    (end, omega (arith, clients), sessions)
run-Balances a (authenticates c ∷ es) h =
    let (end, clients, sessions) = run-Balances (step a (authenticates c)) es h in
    (end, clients, omega (arith, sessions))
run-Balances a (stores c ∷ es) h = run-Balances (step a (stores c)) es h

-- From a counter below 300 it stays below 300, and every 300 seconds of sleep make one cleanup of the
-- clients and one of the sessions, whatever the other threads do. The rate limiter and the sessions
-- end as a history of calls leaves them; and the cleanups in either history are those that the other
-- threads ask for, and those of `main`, for which the counter stands: what it holds at the end, with
-- 300 for each of these and for one that is under way, is what it held at the start, with 300 for one
-- under way then, and the seconds slept.
pub run-ticks :
    (a : App) (es : List Event)
    → a.cleanup_counter < 300
    → ((run a es).cleanup_counter < 300)
      × ((run a es).rate_limiter
          ≡ project_tracker.RateLimiter.Bounds.run a.rate_limiter (limiter_calls a es))
      × ((run a es).cleanup_counter
            + 300
              * (project_tracker.RateLimiter.Bounds.cleanups (limiter_calls a es)
                  + awaits_clients (run a es).place)
          ≡ a.cleanup_counter
            + 300 * (client_cleanups es + awaits_clients a.place)
            + seconds_slept a es)
      × ((run a es).server.auth ≡ project_tracker.Auth.Limits.run a.server.auth (auth_calls a es))
      × ((run a es).cleanup_counter
            + 300
              * (project_tracker.Auth.Limits.cleanups (auth_calls a es)
                  + awaits_sessions (run a es).place)
          ≡ a.cleanup_counter
            + 300 * (session_cleanups es + awaits_sessions a.place)
            + seconds_slept a es)
run-ticks a es h =
    let (below, clients, sessions) = run-Balances a es h in
    let (limiter, auth, db) = run-components a es in (below, limiter, clients, auth, sessions)
