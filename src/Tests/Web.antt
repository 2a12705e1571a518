-- ===== src/Tests/Web.antt =====
-- The middleware and the handlers.
use project_tracker.Base.{
  ℕ, ◌≡◌, ◌≤◌, refl, arith, true, false, if◌then◌else◌, Option, List, [], ◌∷◌, some, none, Bytes,
  codes, bytes_eq, ◌↔◌, ◌⊎◌, length, pos,
}
use project_tracker.Text.{
  to_lower, ends_with, contains, find, find_from, starts_with, found_at_start,
}
use project_tracker.Json.{null, string_at, at, find_field}
use project_tracker.Models.{empty_project}
use project_tracker.Sanitizer.{
  is_valid_slug, is_valid_filename, contains_null_bytes, has_allowed_extension, default_extensions,
}
use project_tracker.Auth.{
  new_auth, init, is_authorized, validate_api_key, constant_time_compare, compare_from,
  extract_session_token,
}
use project_tracker.Db.{
  empty_database, select_project, get_project_id_unlocked, select_file, upsert_file,
}
use project_tracker.Db.Projects.{create, new_row}
use project_tracker.Db.Files.{get_file, put_file, write_file}
use project_tracker.Db.Files.Laws.{all_through}
use project_tracker.Http.{
  Method, get, options, put, Request, add_header, new_middleware, new_response, before_handle,
  limit_request, check_request, is_csrf_blocked, needs_origin, is_origin_ok, is_write, client_ip_of,
  preflight, is_listed, json_error, json_success,
}
use project_tracker.Routes.{JsonText, Server, authorized}
use project_tracker.Routes.FileRoutes.{put_route, read_route, file_answer, plain_text, is_bad_name}
use project_tracker.Routes.Reads.{read_route-put_route}
use project_tracker.Routes.Writes.{
  Write, puts_file, handle, run, IsUnauthorized, handle-IsUnauthorized,
}
use project_tracker.Routes.Writes.Stored.{Keeps, run-Keeps}
use project_tracker.Http.Origins.{IsReading, IsNoBrowser, IsFromHere, is_csrf_blocked_iff}
use project_tracker.Routes.Ranges.{IsRange, line_number, file_answer-IsRange}
use project_tracker.Text.{split}

web : Unit {0}
unfolding bytes_eq to_lower ends_with contains find find_from starts_with found_at_start string_at
    at find_field is_valid_slug is_valid_filename contains_null_bytes has_allowed_extension init
    is_authorized validate_api_key constant_time_compare compare_from extract_session_token
    select_project get_project_id_unlocked select_file upsert_file create new_row get_file put_file
    write_file before_handle limit_request check_request is_csrf_blocked needs_origin is_origin_ok
    is_write client_ip_of preflight is_listed json_error json_success authorized put_route
    read_route file_answer is_bad_name handle run
web = tt

-- A printer and a parser for the tests.
abbrev pub lib : JsonText
lib = record { parse = λ text. some null; dump = λ j. codes "{}" }

abbrev pub no_params : Bytes → Option Bytes
no_params name = none

abbrev pub with_key : Bytes → Bytes
with_key name = if bytes_eq name (codes "X-API-Key") then codes "key" else []

abbrev pub from_elsewhere : Bytes → Bytes
from_elsewhere name =
    if bytes_eq name (codes "Origin")
    then codes "http://elsewhere"
    else if bytes_eq name (codes "Host")
    then codes "here:8080"
    else []

abbrev pub asks : Method → (Bytes → Bytes) → Bytes → Request
asks method header body = record {
  method = method;
  header = header;
  param = no_params;
  body = body;
  remote_ip_address = codes "10.0.0.1";
}

-- A server with the project "app" and no file.
abbrev pub server : Server
server = record {
  auth = init new_auth (codes "key");
  db = (create empty_database true (record empty_project { slug = codes "app" }) (codes "t")).0;
  allowed_extensions = default_extensions;
}

abbrev pub print : ℕ → Bytes
print n = codes "n"

web_tests :
    ((before_handle new_middleware (asks put from_elsewhere []) (new_response 200) 0 0 0).1.code
      ≡ 403)
    × ((before_handle new_middleware
          (asks options from_elsewhere [])
          (new_response 200)
          0
          0
          0).1.code
        ≡ 204)
    × ((put_route lib server
          (asks put with_key (codes "hi"))
          (codes "app")
          (codes "a.md")
          0
          (codes "t")
          all_through).1.code
        ≡ 200)
unfolding web
web_tests = (refl, refl, refl)

read_route-put_route_example :
    read_route lib print
      (put_route lib server
        (asks put with_key (codes "hi"))
        (codes "app")
        (codes "a.md")
        0
        (codes "t")
        all_through).0
      (asks get from_elsewhere [])
      (codes "app")
      (codes "a.md")
      all_through
    ≡ plain_text (codes "hi")
unfolding web
read_route-put_route_example =
    read_route-put_route lib print server (asks put with_key (codes "hi"))
      (asks get from_elsewhere []) (codes "app") (codes "a.md") 0 (codes "t") refl refl refl
      (ground arith) refl refl refl

abbrev writes : List (Write × ℕ × Bytes)
writes =
    (
      puts_file (asks put with_key (codes "hi")) (codes "app") (codes "a.md") all_through,
      0,
      codes "t",
    )
    ∷ []

handle-IsUnauthorized_example : IsUnauthorized server (
    handle lib server
      (puts_file (asks put from_elsewhere (codes "hi")) (codes "app") (codes "a.md") all_through)
      0
      (codes "t"))
unfolding web
handle-IsUnauthorized_example =
    handle-IsUnauthorized lib server
      (puts_file (asks put from_elsewhere (codes "hi")) (codes "app") (codes "a.md") all_through) 0
      (codes "t") refl

server-Keeps : Keeps server
unfolding web
server-Keeps = ((refl, tt), tt)

run-Keeps_example : Keeps (run lib server writes)
run-Keeps_example = run-Keeps lib server writes server-Keeps

-- An allowed origin with more behind it.
abbrev from_longer : Bytes → Bytes
from_longer name = if bytes_eq name (codes "Origin") then codes "http://a.b.evil" else []

longer_origin_test :
    is_csrf_blocked (codes "http://a.b" ∷ []) (asks put from_longer (codes "hi")) ≡ false
unfolding web
longer_origin_test = refl

is_csrf_blocked_iff_example :
    (is_csrf_blocked (codes "http://a.b" ∷ []) (asks put from_longer (codes "hi")) ≡ false) ↔ (
      IsReading put
      ⊎ IsNoBrowser (asks put from_longer (codes "hi"))
      ⊎ IsFromHere (codes "http://a.b" ∷ []) (asks put from_longer (codes "hi")))
is_csrf_blocked_iff_example =
    is_csrf_blocked_iff (codes "http://a.b" ∷ []) (asks put from_longer (codes "hi"))

-- The second line and what follows.
abbrev from_two : Request
from_two = record (asks get from_elsewhere []) {
  param = λ name. if bytes_eq name (codes "from") then some (codes "2") else none;
}

file_answer-IsRange_example :
    let lines = split (codes "a\nb\nc") 10 in
    (from : ℕ) × (to : ℕ) × (body : Bytes) × (line_number
        (from_two.param (codes "from"))
        1
        (length lines)
      ≡ pos from)
    × (line_number (from_two.param (codes "to")) (length lines) (length lines) ≡ pos to)
    × (1 ≤ from)
    × (from ≤ length lines)
    × (1 ≤ to)
    × (to ≤ length lines)
    × IsRange lines from to body
    × (file_answer print from_two (codes "a\nb\nc")
        ≡ add_header (codes "X-Lines-Total") (print (length lines)) (plain_text body))
unfolding web
file_answer-IsRange_example = file_answer-IsRange print from_two (codes "a\nb\nc") (λ e. cc) refl
