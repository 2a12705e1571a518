-- ===== src/Db/Calls.antt =====
-- The writing methods of `ProjectDB` as the steps of one system: each runs under the exclusive lock.
pub mod Failures
pub mod Invariant
use project_tracker.Base.{ℕ, Bool, true, List, [], ◌∷◌, Bytes}
use project_tracker.Json.{Json}
use project_tracker.Models.{Project}
use project_tracker.Db.{Database}
use project_tracker.Db.Projects.{create, update, remove}
use project_tracker.Db.Files.{put_file, delete_file, patch_file}

-- A call with the text of its time and the parts of it that SQLite goes through with.
pub data Call : Type 0 where
  creates : Project → (now : Bytes) → Bool → Call
  updates : (slug : Bytes) → Json → (now : Bytes) → Bool → Call
  removes : (slug : Bytes) → (ℕ → Bool) → Call
  puts : (slug filename content now : Bytes) → (ℕ → Bool) → Call
  deletes : (slug filename : Bytes) → (ℕ → Bool) → Call
  patches : (slug filename : Bytes) → Json → (now : Bytes) → (ℕ → Bool) → Call

unfoldable pub step : Database → Call → Database × Bool
step db (creates p now io) = create db io p now
step db (updates slug fields now io) = update db io slug fields now
step db (removes slug io) = remove db io slug
step db (puts slug filename content now io) = put_file db io slug filename content now
step db (deletes slug filename io) = delete_file db io slug filename
step db (patches slug filename patch now io) = patch_file db io slug filename patch now

unfoldable pub run : Database → List Call → Database
run db [] = db
run db (c ∷ cs) = run (step db c).0 cs
