-- ===== src/Tests/Logs.antt =====
-- The log and the static files.
use project_tracker.Base.{ℕ, ◌≡◌, refl, true, List, [], ◌∷◌, some, Option, Bytes, codes, bytes_eq}
use project_tracker.Base.Dict.{lookup, put, erase}
use project_tracker.Text.{contains, find, find_from, starts_with, found_at_start}
use project_tracker.Logger.{
  debug, info, warn, error, fatal, Logger, new_logger, init, Output, write_log, format_message,
  Files, numbered, rename, rotate_one, rotate_files, rotate_dir, rotate_logs,
}
use project_tracker.Logger.Levels.{Message, write_all}
use project_tracker.Http.{json_error}
use project_tracker.Routes.WebUi.{static_file, static_route, css_route, js_route}
use project_tracker.Tests.Web.{lib}

logs : Unit {0}
unfolding bytes_eq lookup put erase contains find find_from starts_with found_at_start write_log
    format_message rename rotate_one rotate_files rotate_dir rotate_logs write_all json_error
    static_file static_route css_route js_route
logs = tt

abbrev says : project_tracker.Logger.LogLevel → Bytes → Message
says level text = record { timestamp = codes "12:00"; level = level; text = text }

abbrev messages : List Message
messages = says debug (codes "a") ∷ says info (codes "b") ∷ says error (codes "c") ∷ []

abbrev silence : Output
silence = record { out = []; err = [] }

log_tests :
    ((write_all new_logger messages silence).out ≡ codes "[12:00] [INFO] b" ∷ [])
    × ((write_all new_logger messages silence).err ≡ codes "[12:00] [ERROR] c" ∷ [])
unfolding logs
log_tests = (refl, refl)

-- A printer that writes the number as one character.
abbrev print : ℕ → Bytes
print n = n ∷ []

abbrev full : Logger
full = record new_logger {
  log_file = true;
  max_file_size = 10;
  current_file_size = 12;
  log_filename = codes "log";
  max_files = 3;
}

abbrev files : Files
files =
    (codes "log", codes "new")
    ∷ (numbered print (codes "log") 1, codes "old")
    ∷ (numbered print (codes "log") 2, codes "older")
    ∷ []

rotation_test :
    lookup (numbered print (codes "log") 2) (rotate_logs print full files).1 ≡ some (codes "old")
unfolding logs
rotation_test = refl

abbrev read_file : Bytes → Bytes
read_file path = path

abbrev canonical : Bytes → Option Bytes
canonical path = some path

static_tests :
    ((css_route lib read_file canonical (codes "web") (codes "a.css")).body ≡ codes "web/css/a.css")
    × ((js_route lib read_file canonical (codes "web") (codes "..")).code ≡ 400)
unfolding logs
static_tests = (refl, refl)
