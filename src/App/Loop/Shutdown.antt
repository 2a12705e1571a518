-- ===== src/App/Loop/Shutdown.antt =====
-- The end of the loop after a signal.
use project_tracker.Base.{◌-◌, ℕ, ◌+◌, ◌≤◌, ◌≡◌, true, List, [], ◌∷◌}
use project_tracker.App.Loop.{
  Place, head, asleep, before_clients, before_sessions, stopped, App, Event, main_steps, signals,
  limits, authenticates, stores,
}

-- How many steps of `main` are among those of all threads.
unfoldable pub main_count : List Event → ℕ
main_count [] = 0
main_count (main_steps now ∷ es) = main_count es + 1
main_count (signals n ∷ es) = main_count es
main_count (limits c ∷ es) = main_count es
main_count (authenticates c ∷ es) = main_count es
main_count (stores c ∷ es) = main_count es

-- How many steps of its own `main` has left, at most, once it is to stop.
todo : Place → ℕ
todo head = 1
todo asleep = 4
todo before_clients = 3
todo before_sessions = 2
todo stopped = 0

-- From `a` to `b` in `k` steps of `main`, once it is to stop.
abbrev Approaches : App → ℕ → App → Type 0
Approaches a k b = (b.shutdown_requested ≡ true) × (todo b.place ≤ todo a.place - k)
