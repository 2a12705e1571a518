-- ===== src/Logger/Rotation.antt =====
-- What a rotation does to the files of the log.
use project_tracker.Base.{ℕ, suc, ◌≡◌, some, Bytes}
use project_tracker.Base.Dict.{lookup}
use project_tracker.Logger.{Logger, Files, numbered, rotate_files}

module _ (print : ℕ → Bytes) (name : Bytes) (distinct : (i j : ℕ) → print i ≡ print j → i ≡ j) where
  abbrev num : ℕ → Bytes
  num i = numbered print name i

  module _ (m : ℕ) (fs : Files) (current : Bytes) (here : lookup name fs ≡ some current) where
    abbrev older_files : Files
    older_files = rotate_files print name (suc (suc m)) (suc m) fs
