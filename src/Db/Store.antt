-- ===== src/Db/Store.antt =====
-- What the database promises to its callers: a store of projects, each with its fields and its files
-- by name. Rows, keys and the order of the tables are forgotten.
pub mod Selects
pub mod Entries
pub mod Refinement
pub mod Details
use project_tracker.Base.{
  ℕ, suc, Bool, true, false, Option, none, some, List, [], ◌∷◌, ◌≡◌, if◌then◌else◌, is_empty, Bytes,
  bytes_eq,
}
use project_tracker.Json.{Json}
use project_tracker.Models.{Project}
use project_tracker.Patch.{apply_patch}
use project_tracker.Db.{ProjectRow, FileRow, Database, select_project, select_file}
use project_tracker.Db.Projects.{new_row, changed_row}
use project_tracker.Db.Files.{contents}
use project_tracker.Db.Calls.{Call, creates, updates, removes, puts, deletes, patches}

pub record Entry : Type 0 where
  pub row : ProjectRow
  pub file : Bytes → Option Bytes

-- `next_id` is the key of the next project, which clients see as its id.
pub record Store : Type 0 where
  pub entry : Bytes → Option Entry
  pub next_id : ℕ

abbrev pub entry_of : List FileRow → Option ProjectRow → Option Entry
entry_of fs none = none
entry_of fs (some p) = some (record { row = p; file = λ name. contents (select_file p.id name fs) })

-- The store that a database stands for.
abbrev pub view : Database → Store
view db = record {
  entry = λ slug. entry_of db.files (select_project slug db.projects);
  next_id = db.next_id;
}

abbrev pub new_entry : ℕ → Project → (now : Bytes) → Entry
new_entry id p now = record { row = new_row id p now; file = λ name. none }

abbrev pub with_file : Bytes → Option Bytes → Entry → Entry
with_file name content e = record e { file = λ n. if bytes_eq name n then content else e.file n }

-- The file after a patch; `none` where there is nothing to patch, or the patch is refused.
abbrev pub patched : Json → Option Bytes → Option Bytes
patched patch none = none
patched patch (some c) = if is_empty c then none else apply_patch patch c

abbrev pub slug_of : Call → Bytes
slug_of (creates p now io) = p.slug
slug_of (updates slug fields now io) = slug
slug_of (removes slug io) = slug
slug_of (puts slug name content now io) = slug
slug_of (deletes slug name io) = slug
slug_of (patches slug name patch now io) = slug

-- `none` refuses the call; `some e` makes `e` of the entry, where `none` is no project.
abbrev pub Answer : Type 0
Answer = Option (Option Entry)

abbrev pub replaced : Entry → (name : Bytes) → Option Bytes → Answer
replaced e name none = none
replaced e name (some c) = some (some (with_file name (some c) e))

abbrev pub erased : Entry → (name : Bytes) → Option Bytes → Answer
erased e name none = none
erased e name (some c) = some (some (with_file name none e))

-- What a call does to the entry under its slug.
abbrev pub act : (next_id : ℕ) → Call → Option Entry → Answer
act next_id (creates p now io) none = some (some (new_entry next_id p now))
act next_id (creates p now io) (some e) = none
act next_id (updates slug fields now io) none = none
act next_id (updates slug fields now io) (some e) =
    some (some (record e { row = changed_row fields now e.row }))
act next_id (removes slug io) none = none
act next_id (removes slug io) (some e) = some none
act next_id (puts slug name content now io) none = none
act next_id (puts slug name content now io) (some e) = some (some (with_file name (some content) e))
act next_id (deletes slug name io) none = none
act next_id (deletes slug name io) (some e) = erased e name (e.file name)
act next_id (patches slug name patch now io) none = none
act next_id (patches slug name patch now io) (some e) =
    replaced e name (patched patch (e.file name))

-- A creation takes a key.
abbrev pub next_after : Call → ℕ → ℕ
next_after (creates p now io) n = suc n
next_after (updates slug fields now io) n = n
next_after (removes slug io) n = n
next_after (puts slug name content now io) n = n
next_after (deletes slug name io) n = n
next_after (patches slug name patch now io) n = n

abbrev pub write_entry : Call → Option Entry → Store → Store
write_entry c e st = record {
  entry = λ slug. if bytes_eq (slug_of c) slug then e else st.entry slug;
  next_id = next_after c st.next_id;
}

abbrev pub obey : Call → Store → Answer → Store × Bool
obey c st none = (st, false)
obey c st (some e) = (write_entry c e st, true)

-- A call of the abstract store.
pub spec_step : Store → Call → Store × Bool
spec_step st c = obey c st (act st.next_id c (st.entry (slug_of c)))

pub spec_run : Store → List Call → Store
spec_run st [] = st
spec_run st (c ∷ cs) = spec_run (spec_step st c).0 cs

-- SQLite goes through with every statement of the call.
abbrev pub GoesThrough : Call → Type 0
GoesThrough (creates p now io) = io ≡ true
GoesThrough (updates slug fields now io) = io ≡ true
GoesThrough (removes slug io) = (k : ℕ) → io k ≡ true
GoesThrough (puts slug name content now io) = (k : ℕ) → io k ≡ true
GoesThrough (deletes slug name io) = (k : ℕ) → io k ≡ true
GoesThrough (patches slug name patch now io) = (k : ℕ) → io k ≡ true
