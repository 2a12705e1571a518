-- ===== src/Logger.antt =====
-- src/utils/logger.cpp: which messages are written, where, and in which form; and the rotation of
-- log files. The time of a message is a text.
pub mod Levels
pub mod Renames
pub mod Rotation
use project_tracker.Base.{
  ℕ, zero, suc, ◌+◌, ◌-◌, Bool, true, false, not, ◌||◌, Option, none, some, List, [], ◌∷◌, ◌++◌,
  ltb, leb, ◌==◌, if◌then◌else◌, Bytes, codes,
}
use project_tracker.Base.Dict.{lookup, put, erase}

pub data LogLevel : Type 0 where
  debug : LogLevel
  info : LogLevel
  warn : LogLevel
  error : LogLevel
  fatal : LogLevel

-- The order of the enumeration.
abbrev pub rank : LogLevel → ℕ
rank debug = 0
rank info = 1
rank warn = 2
rank error = 3
rank fatal = 4

abbrev pub level_to_string : LogLevel → Bytes
level_to_string debug = codes "DEBUG"
level_to_string info = codes "INFO"
level_to_string warn = codes "WARN"
level_to_string error = codes "ERROR"
level_to_string fatal = codes "FATAL"

-- `log_file` says whether the file is open; `files` is the log's directory.
pub record Logger : Type 0 where
  pub current_level : LogLevel
  pub console_output : Bool
  pub file_output : Bool
  pub log_file : Bool
  pub max_file_size : ℕ
  pub current_file_size : ℕ
  pub log_directory : Bytes
  pub log_filename : Bytes
  pub max_files : ℕ

abbrev pub new_logger : Logger
new_logger = record {
  current_level = info;
  console_output = true;
  file_output = false;
  log_file = false;
  max_file_size = 0;
  current_file_size = 0;
  log_directory = [];
  log_filename = [];
  max_files = 0;
}

abbrev pub init : Logger → LogLevel → Logger
init l level = record l { current_level = level; console_output = true; file_output = false }

abbrev pub set_level : Logger → LogLevel → Logger
set_level l level = record l { current_level = level }

abbrev pub close : Logger → Logger
close l = record l { log_file = false }

unfoldable pub format_message : (timestamp : Bytes) → LogLevel → Bytes → Bytes
format_message timestamp level msg =
    codes "["
    ++ (timestamp ++ (codes "] " ++ (codes "[" ++ (level_to_string level ++ (codes "] " ++ msg)))))

-- The two streams of the process, as the lines written to them.
pub record Output : Type 0 where
  pub out : List Bytes
  pub err : List Bytes

unfoldable pub write_log : Logger → (timestamp : Bytes) → LogLevel → Bytes → Output → Output
write_log l timestamp level message o =
    let formatted = format_message timestamp level message in
    if ltb (rank level) (rank l.current_level)
    then o
    else if leb (rank error) (rank level)
    then record o { err = o.err ++ formatted ∷ [] }
    else record o { out = o.out ++ formatted ∷ [] }

-- `print` is the formatting of a number by a stream.
unfoldable pub request_line :
    (print : ℕ → Bytes)
    → (client_ip method path : Bytes) → (status_code response_size duration_ms : ℕ) → Bytes
request_line print client_ip method path status_code response_size duration_ms =
    codes "[REQUEST] "
    ++ (client_ip
        ++ (codes " "
            ++ (method
                ++ (codes " "
                    ++ (path
                        ++ (codes " "
                            ++ (print status_code
                                ++ (codes " "
                                    ++ (print response_size
                                        ++ (codes " bytes "
                                            ++ (print duration_ms ++ codes "ms")))))))))))

unfoldable pub log_request :
    Logger
    → (timestamp : Bytes) → (print : ℕ → Bytes) → (client_ip method path : Bytes)
    → (status_code response_size duration_ms : ℕ) → Output
    → Output
log_request l timestamp print client_ip method path status_code response_size duration_ms o =
    write_log l timestamp info
      (request_line print client_ip method path status_code response_size duration_ms) o

-- A file of the log's directory; the path in front is the same for all.
abbrev pub Files : Type 0
Files = List (Bytes × Bytes)

-- `log_filename + "." + std::to_string(i)`
abbrev pub numbered : (print : ℕ → Bytes) → Bytes → ℕ → Bytes
numbered print name i = name ++ (b'.' ∷ print i)

-- `fs::rename`, of a file that exists
unfoldable pub rename : Files → (old new : Bytes) → Files
rename fs old new = elim (lookup old fs) [ none ↦ fs | some text ↦ put new text (erase old fs) ]

-- One round of the loop.
unfoldable pub rotate_one : (print : ℕ → Bytes) → Bytes → (max_files i : ℕ) → Files → Files
rotate_one print name max_files i fs =
    if i + 1 == max_files
    then erase (numbered print name i) fs
    else rename fs (numbered print name i) (numbered print name (i + 1))

-- The loop from `i` down to 1.
unfoldable pub rotate_files : (print : ℕ → Bytes) → Bytes → (max_files i : ℕ) → Files → Files
rotate_files print name max_files zero fs = fs
rotate_files print name max_files (suc i) fs =
    rotate_files print name max_files i (rotate_one print name max_files (suc i) fs)

-- `log_file.open(…, std::ios::app)` makes the file if it is not there.
abbrev pub open_file : Bytes → Option Bytes → Files → Files
open_file name none fs = put name [] fs
open_file name (some text) fs = fs

-- The rotation of the directory, and the new log file.
unfoldable pub rotate_dir : (print : ℕ → Bytes) → Bytes → (max_files : ℕ) → Files → Files
rotate_dir print name max_files fs =
    let older = rotate_files print name max_files (max_files - 1) fs in
    let moved = rename older name (numbered print name 1) in
    open_file name (lookup name moved) moved

unfoldable pub rotate_logs : (print : ℕ → Bytes) → Logger → Files → Logger × Files
rotate_logs print l fs =
    if not l.log_file || ltb l.current_file_size l.max_file_size
    then (l, fs)
    else (record l { current_file_size = 0 }, rotate_dir print l.log_filename l.max_files fs)
