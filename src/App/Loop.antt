-- ===== src/App/Loop.antt =====
-- src/main.cpp: the thread of `main` while the server runs, the signal handler, and the calls that
-- the server's threads make meanwhile. Each component holds a mutex of its own during a call, so
-- that a call is one step, and a run is an interleaving of the steps of all threads.
pub mod Shutdown
pub mod Cleanup
pub mod Components
pub mod Views
pub mod Invariant
use project_tracker.Base.{
  ℕ, ◌+◌, Bool, true, false, ◌||◌, Option, none, some, List, [], ◌∷◌, if◌then◌else◌, leb, ◌==◌,
  Bytes,
}
use project_tracker.RateLimiter.{RateLimiter, cleanup_old_clients}
use project_tracker.Auth.{clean_expired_sessions}
use project_tracker.Config.{Config}
use project_tracker.Db.{Database}
use project_tracker.Routes.{Server}
use project_tracker.App.{auth_of, limiter_of, middleware_of, extensions_of}

-- Where the thread of `main` stands: at the head of the loop, in `sleep_for`, in front of either
-- cleanup, or behind the loop.
pub data Place : Type 0 where
  head : Place
  asleep : Place
  before_clients : Place
  before_sessions : Place
  stopped : Place

pub record App : Type 0 where
  pub place : Place
  pub cleanup_counter : ℕ
  pub shutdown_requested : Bool
  pub rate_limiter : RateLimiter
  pub max_body_size : ℕ
  pub cors_origins : List Bytes
  pub server : Server

-- The server as `main` starts it.
unfoldable pub started : Config → (key : Option Bytes) → Database → App
started c key db = record {
  place = head;
  cleanup_counter = 0;
  shutdown_requested = false;
  rate_limiter = limiter_of c;
  max_body_size = (middleware_of c).max_body_size;
  cors_origins = (middleware_of c).cors_origins;
  server = record { auth = auth_of c key; db = db; allowed_extensions = extensions_of c };
}

-- SIGINT and SIGTERM
abbrev pub sigint : ℕ
sigint = 2

abbrev pub sigterm : ℕ
sigterm = 15

unfoldable pub signal_handler : (signal : ℕ) → (shutdown_requested : Bool) → Bool
signal_handler signal shutdown_requested =
    if (signal == sigint) || (signal == sigterm) then true else shutdown_requested

abbrev pub with_auth : App → project_tracker.Auth.Auth → App
with_auth a auth = record a { server = record a.server { auth = auth } }

-- The counter behind the sleep.
unfoldable pub count : App → App
count a =
    if leb 300 (a.cleanup_counter + 1)
    then record a { place = before_clients; cleanup_counter = 0 }
    else record a { place = head; cleanup_counter = a.cleanup_counter + 1 }

-- One step of the thread of `main`, which reads the clock in either cleanup.
unfoldable pub advance : Place → App → (now : ℕ) → App
unfolding count
advance head a now =
    if a.shutdown_requested then record a { place = stopped } else record a { place = asleep }
advance asleep a now = count a
advance before_clients a now = record a {
  place = before_sessions;
  rate_limiter = cleanup_old_clients a.rate_limiter now;
}
advance before_sessions a now =
    with_auth (record a { place = head }) (clean_expired_sessions a.server.auth now)
advance stopped a now = a

-- A step of any thread.
pub data Event : Type 0 where
  main_steps : (now : ℕ) → Event
  signals : (signal : ℕ) → Event
  limits : project_tracker.RateLimiter.Bounds.Call → Event
  authenticates : project_tracker.Auth.Limits.Call → Event
  stores : project_tracker.Db.Calls.Call → Event

unfoldable pub step : App → Event → App
unfolding advance signal_handler
step a (main_steps now) = advance a.place a now
step a (signals signal) = record a {
  shutdown_requested = signal_handler signal a.shutdown_requested;
}
step a (limits call) = record a {
  rate_limiter = project_tracker.RateLimiter.Bounds.step a.rate_limiter call;
}
step a (authenticates call) = with_auth a (project_tracker.Auth.Limits.step a.server.auth call)
step a (stores call) = record a {
  server = record a.server { db = (project_tracker.Db.Calls.step a.server.db call).0 };
}

unfoldable pub run : App → List Event → App
unfolding step
run a [] = a
run a (e ∷ es) = run (step a e) es
