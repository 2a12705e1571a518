-- ===== src/Routes/FileRoutes.antt =====
-- src/routes/files.cpp.
use project_tracker.Base.{
  ℕ, ◌-◌, Bool, true, false, not, ◌||◌, Option, none, some, List, [], ◌∷◌, ◌++◌, ltb, if◌then◌else◌,
  length, is_empty, take, drop, Bytes, codes, ℤ, pos, pos_part,
}
use project_tracker.Json.{Json, string_at, integer, boolean, string, object, field, end}
use project_tracker.Text.{contains, contains_byte, split}
use project_tracker.Sanitizer.{
  is_valid_slug, is_valid_filename, contains_null_bytes, safe_disposition_name,
}
use project_tracker.Validator.{is_body_size_valid, safe_param_int}
use project_tracker.Db.{Database}
use project_tracker.Db.Files.{get_file, put_file, delete_file, patch_file}
use project_tracker.Http.{
  Request, Response, json_error, json_success, new_response, write, add_header,
}
use project_tracker.Routes.{JsonText, Server, refuse, authorized, written}

-- The relaxed check of a file's name.
unfoldable pub is_bad_name : Bytes → Bool
is_bad_name filename =
    is_empty filename
    || ltb 128 (length filename)
    || contains_null_bytes filename
    || contains filename (codes "..")

abbrev pub plain_text : Bytes → Response
plain_text content =
    add_header (codes "Content-Type") (codes "text/plain; charset=utf-8")
      (write content (new_response 200))

abbrev pub is_given : Option Bytes → Bool
is_given none = false
is_given (some s) = true

-- `result += lines[i] + "\n"`
unfoldable pub ended_lines : List Bytes → Bytes
ended_lines [] = []
ended_lines (l ∷ ls) = l ++ (b'\n' ∷ ended_lines ls)

-- The loop over the lines `from - 1` up to `to`, where both are at least 1.
unfoldable pub line_range : List Bytes → (from to : ℤ) → Bytes
line_range lines from to =
    let start = pos_part from - 1 in ended_lines (take (pos_part to - start) (drop start lines))

unfoldable pub range_answer :
    (print : ℕ → Bytes) → List Bytes → (from_p to_p : Option Bytes) → Response
range_answer print lines from_p to_p =
    let total = pos (length lines) in
    let from = safe_param_int from_p (pos 1) (pos 1) total in
    let to = safe_param_int to_p total (pos 1) total in
    add_header (codes "X-Lines-Total") (print (length lines))
      (plain_text (line_range lines from to))

-- A file's content, or the lines that the parameters `from` and `to` ask for.
unfoldable pub file_answer : (print : ℕ → Bytes) → Request → (content : Bytes) → Response
file_answer print req content =
    let from_p = req.param (codes "from") in
    let to_p = req.param (codes "to") in
    if is_given from_p || is_given to_p
    then range_answer print (split content 10) from_p to_p
    else plain_text content

-- GET /api/projects/<slug>/files/<filename>
unfoldable pub read_route :
    JsonText
    → (print : ℕ → Bytes) → Server
    → Request
    → (slug filename : Bytes) → (goes_through : ℕ → Bool) → Response
read_route lib print srv req slug filename goes_through =
    let data_ = get_file srv.db goes_through slug filename in
    if not (is_valid_slug slug)
    then json_error lib.dump 400 (codes "invalid slug")
    else if is_bad_name filename || contains_byte filename b'/'
    then json_error lib.dump 400 (codes "invalid filename")
    else if is_empty data_
    then json_error lib.dump 404 (codes "file not found")
    else file_answer print req data_

-- PUT /api/projects/<slug>/files/<filename>
unfoldable pub put_route :
    JsonText
    → Server
    → Request
    → (slug filename : Bytes) → (clock : ℕ) → (now : Bytes) → (goes_through : ℕ → Bool)
    → Server × Response
put_route lib srv req slug filename clock now goes_through = authorized lib srv req clock λ s.
    if not (is_valid_slug slug)
    then refuse lib s 400 (codes "invalid slug")
    else if not (is_valid_filename s.allowed_extensions filename)
    then refuse lib s 400 (codes "invalid filename")
    else if not (is_body_size_valid (length req.body) 10485760)
    then refuse lib s 413 (codes "file too large")
    else written lib s (put_file s.db goes_through slug filename req.body now)
        (lib.dump (
          object (
            field (codes "success") (boolean true) (
              field (codes "filename") (string filename)
                (field (codes "size") (integer (pos (length req.body))) end)))))
        (codes "write failed")

-- DELETE /api/projects/<slug>/files/<filename>
unfoldable pub delete_route :
    JsonText
    → Server
    → Request
    → (slug filename : Bytes) → (clock : ℕ) → (goes_through : ℕ → Bool) → Server × Response
delete_route lib srv req slug filename clock goes_through = authorized lib srv req clock λ s.
    if not (is_valid_slug slug)
    then refuse lib s 400 (codes "invalid slug")
    else if is_bad_name filename
    then refuse lib s 400 (codes "invalid filename")
    else written lib s (delete_file s.db goes_through slug filename) (codes "{\"success\":true}")
        (codes "delete failed")

-- The answer to a patch, which reads the file again; `reads` is what SQLite does then.
unfoldable pub patched :
    JsonText
    → Server
    → Database × Bool
    → (slug filename : Bytes) → (reads : ℕ → Bool) → Server × Response
patched lib srv (db, ok) slug filename reads =
    let after = record srv { db = db } in
    let data_ = get_file db reads slug filename in
    if ok
    then (
      after,
      json_success (
          lib.dump (
            object (
              field (codes "success") (boolean true)
                (field (codes "size") (integer (pos (length data_))) end)))),
    )
    else if is_empty data_
    then refuse lib after 404 (codes "file not found")
    else refuse lib after 400 (codes "patch failed")

-- What PATCH does with the parsed body.
unfoldable pub patch_from :
    JsonText
    → Server
    → (slug filename : Bytes) → Json
    → (op : Option Bytes) → (now : Bytes) → (goes_through reads : ℕ → Bool) → Server × Response
patch_from lib srv slug filename body none now goes_through reads =
    refuse lib srv 400 (codes "op required")
patch_from lib srv slug filename body (some op) now goes_through reads =
    patched lib srv (patch_file srv.db goes_through slug filename body now) slug filename reads

-- PATCH /api/projects/<slug>/files/<filename>
unfoldable pub patch_route :
    JsonText
    → Server
    → Request
    → (slug filename : Bytes) → (clock : ℕ) → (now : Bytes) → (goes_through reads : ℕ → Bool)
    → Server × Response
patch_route lib srv req slug filename clock now goes_through reads =
    authorized lib srv req clock λ s.
      if not (is_valid_slug slug)
      then refuse lib s 400 (codes "invalid slug")
      else if is_bad_name filename
      then refuse lib s 400 (codes "invalid filename")
      else if not (is_body_size_valid (length req.body) 65536)
      then refuse lib s 413 (codes "patch body too large")
      else elim (lib.parse req.body) [
        | none ↦ refuse lib s 400 (codes "invalid json")
        | some body ↦
            patch_from lib s slug filename body (string_at (codes "op") body) now goes_through reads
      ]

-- GET /api/projects/<slug>/files/<filename>/download
unfoldable pub download_route :
    JsonText → Server → (slug filename : Bytes) → (goes_through : ℕ → Bool) → Response
download_route lib srv slug filename goes_through =
    let data_ = get_file srv.db goes_through slug filename in
    if not (is_valid_slug slug)
    then json_error lib.dump 400 (codes "invalid slug")
    else if is_bad_name filename
    then json_error lib.dump 400 (codes "invalid filename")
    else if is_empty data_
    then json_error lib.dump 404 (codes "file not found")
    else add_header (codes "Content-Disposition")
        (codes "attachment; filename=\"" ++ (safe_disposition_name filename ++ codes "\""))
        (add_header (codes "Content-Type") (codes "application/octet-stream")
          (write data_ (new_response 200)))
