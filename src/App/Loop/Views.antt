-- ===== src/App/Loop/Views.antt =====
-- The whole server against the store that its database promises.
use project_tracker.Base.{◌≡◌, ◌∙◌, ap, Bytes, Option, List, All}
use project_tracker.Config.{Config}
use project_tracker.Db.{Database}
use project_tracker.Db.Calls.{Call, run}
use project_tracker.Db.Calls.Invariant.{WellFormed, run-WellFormed}
use project_tracker.Db.Store.{GoesThrough, view, spec_step, spec_run}
use project_tracker.Db.Store.Refinement.{view-step, view-run}
use project_tracker.App.Loop.{App, Event, started}
use project_tracker.App.Loop.Components.{db_calls, run-components}

-- The server implements the store of projects. Whatever the settings, from well-formed tables, in
-- every interleaving of its threads' calls with the loop of `main`, signals and cleanups, where
-- SQLite goes through with the calls of the database: the tables stand for the store that the calls
-- make in their order, and the next such call gets the answer of that store.
pub view-run-started :
    (s : Config) (key : Option Bytes) (db : Database) (es : List Event) (c : Call)
    → WellFormed db
    → All GoesThrough (db_calls es)
    → GoesThrough c
    → let a = project_tracker.App.Loop.run (started s key db) es in
      (view a.server.db ≡ spec_run (view db) (db_calls es))
      × ((project_tracker.Db.Calls.step a.server.db c).1
          ≡ (spec_step (spec_run (view db) (db_calls es)) c).1)
unfolding started
view-run-started s key db es c v hs h =
    let (limiter, auth, same) = run-components (started s key db) es in
    let seen = view-run db (db_calls es) v hs in
    (
      ap view same ∙ seen,
      ap (λ d. (project_tracker.Db.Calls.step d c).1) same
          ∙ ((view-step (run db (db_calls es)) c (run-WellFormed db (db_calls es) v) h).1
              ∙ ap (λ st. (spec_step st c).1) seen),
    )
