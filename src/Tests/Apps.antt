-- ===== src/Tests/Apps.antt =====
-- The program from its settings to its end.
use project_tracker.Base.{
  ◌≡◌, ◌<◌, ◌+◌, ◌*◌, ◌⊎◌, refl, arith, List, [], ◌∷◌, some, Bytes, codes, bytes_eq,
}
use project_tracker.Base.Dict.{lookup, put}
use project_tracker.Text.{split, trim, skip_space}
use project_tracker.Validator.{stoi, read_sign, read_signed, as_signed, leading_number}
use project_tracker.Config.{
  new_config, set_env, section_of, get, get_int, get_bool, has_key, has_section, value_at, load,
  parse_lines, parse_line, parse_trimmed,
}
use project_tracker.Auth.{is_authorized}
use project_tracker.RateLimiter.Bounds.{cleans}
use project_tracker.Db.{empty_database}
use project_tracker.Db.Files.Laws.{all_through}
use project_tracker.Http.{
  Request, is_csrf_blocked, is_write, needs_origin, check_request, new_response, before_handle,
}
use project_tracker.Routes.Writes.{Write, puts_file}
use project_tracker.App.{
  settings_of, configure, log_level_of, auth_of, limiter_of, middleware_of, extensions_of,
  with_proxies, with_origins, trimmed_parts,
}
use project_tracker.App.Loop.{
  App, started, Event, main_steps, limits, asleep, run, step, advance, count, signal_handler,
}
use project_tracker.App.Loop.Shutdown.{main_count}
use project_tracker.App.Loop.Cleanup.{
  awaits_clients, awaits_sessions, seconds_slept, client_cleanups, session_cleanups, run-ticks,
}
use project_tracker.App.Loop.Invariant.{IsSound, run-started-IsSound}
use project_tracker.App.Serve.{Times, guard, serve, IsAdmitted, serve-IsAdmitted}
use project_tracker.App.Serve.Headers.{IsSecured, serve-IsSecured}
use project_tracker.App.Serve.Steps.{Reaches, serve-Reaches}
use project_tracker.Tests.Web.{lib, with_key, asks, server}
use project_tracker.Tests.Databases.{empty_database-WellFormed}
use project_tracker.App.Serve.Told.{serve-IsTold}
use project_tracker.Routes.Writes.Outcomes.{IsTold, call_of}
use project_tracker.App.Loop.Components.{limiter_calls, auth_calls, db_calls}
use project_tracker.Base.{true}
use project_tracker.App.Loop.{stores}
use project_tracker.App.Loop.Components.{db_step}
use project_tracker.App.Loop.Views.{view-run-started}
use project_tracker.Db.Calls.{Call, creates}
use project_tracker.Db.Store.{view, spec_step, spec_run}
use project_tracker.Models.{empty_project}

apps : Unit {0}
unfolding bytes_eq lookup put set_env section_of get get_int get_bool has_key has_section value_at
    load parse_lines parse_line parse_trimmed settings_of configure log_level_of auth_of limiter_of
    middleware_of extensions_of with_proxies with_origins trimmed_parts started run step advance
    count signal_handler main_count seconds_slept guard serve stoi read_sign skip_space read_signed
    as_signed leading_number is_csrf_blocked is_write needs_origin split trim
apps = tt

-- Without a settings file's entries, and with the key "key".
abbrev running : App
running = started new_config (some (codes "key")) server.db

abbrev puts_hi : Write
puts_hi =
    puts_file (asks project_tracker.Http.put with_key (codes "hi")) (codes "app") (codes "a.md")
      all_through

abbrev times : Times
times = record { ban = 5; refill = 5; violation = 5; clock = 5; now = codes "t" }

serve-IsAdmitted_example :
    ((serve lib running puts_hi times).0.server.db ≡ running.server.db)
    ⊎ IsAdmitted running (asks project_tracker.Http.put with_key (codes "hi")) times
serve-IsAdmitted_example = serve-IsAdmitted lib running puts_hi times

serve-IsSecured_example :
    (before : List (Bytes × Bytes)) × IsSecured running.cors_origins
      (asks project_tracker.Http.put with_key (codes "hi"))
      before
      (serve lib running puts_hi times).1
serve-IsSecured_example = serve-IsSecured lib running puts_hi times

serve-Reaches_example : Reaches 3 running (serve lib running puts_hi times).0
serve-Reaches_example = serve-Reaches lib running puts_hi times

-- A cleanup by another thread's call between the steps of `main`.
abbrev ticks : List Event
ticks = main_steps 1 ∷ main_steps 2 ∷ limits (cleans 3) ∷ main_steps 4 ∷ main_steps 5 ∷ []

-- The 300th second of sleep.
abbrev late : App
late = record running { place = asleep; cleanup_counter = 299 }

run-ticks_example :
    ((run late ticks).cleanup_counter < 300)
    × ((run late ticks).rate_limiter
        ≡ project_tracker.RateLimiter.Bounds.run late.rate_limiter (limiter_calls late ticks))
    × ((run late ticks).cleanup_counter
          + 300
            * (project_tracker.RateLimiter.Bounds.cleanups (limiter_calls late ticks)
                + awaits_clients (run late ticks).place)
        ≡ late.cleanup_counter
          + 300 * (client_cleanups ticks + awaits_clients late.place)
          + seconds_slept late ticks)
    × ((run late ticks).server.auth
        ≡ project_tracker.Auth.Limits.run late.server.auth (auth_calls late ticks))
    × ((run late ticks).cleanup_counter
          + 300
            * (project_tracker.Auth.Limits.cleanups (auth_calls late ticks)
                + awaits_sessions (run late ticks).place)
        ≡ late.cleanup_counter
          + 300 * (session_cleanups ticks + awaits_sessions late.place)
          + seconds_slept late ticks)
run-ticks_example = run-ticks late ticks (omega arith)

cleanup_test : (seconds_slept late ticks ≡ 1) × ((run late ticks).cleanup_counter ≡ 0)
unfolding apps
cleanup_test = (refl, refl)

run-started-IsSound_example :
    IsSound (run (started new_config (some (codes "key")) empty_database) ticks)
run-started-IsSound_example =
    run-started-IsSound new_config (some (codes "key")) empty_database ticks
      empty_database-WellFormed

serve-IsTold_example :
    IsTold running.server.db
      (call_of lib puts_hi times.now)
      (serve lib running puts_hi times).0.server.db
      (serve lib running puts_hi times).1.code
serve-IsTold_example = serve-IsTold lib running puts_hi times

abbrev creation : Call
creation = creates (record empty_project { slug = codes "app" }) (codes "t") true

-- A creation between the steps of `main` and of the rate limiter.
abbrev creating : List Event
creating = main_steps 1 ∷ stores creation ∷ limits (cleans 3) ∷ main_steps 4 ∷ []

view-run-started_example :
    let a = run (started new_config (some (codes "key")) empty_database) creating in
    (view a.server.db ≡ spec_run (view empty_database) (db_calls creating))
    × ((project_tracker.Db.Calls.step a.server.db creation).1
        ≡ (spec_step (spec_run (view empty_database) (db_calls creating)) creation).1)
unfolding db_calls db_step
view-run-started_example =
    view-run-started new_config (some (codes "key")) empty_database creating creation
      empty_database-WellFormed (refl, tt) refl
