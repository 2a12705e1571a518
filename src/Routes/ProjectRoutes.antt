-- ===== src/Routes/ProjectRoutes.antt =====
-- src/routes/projects.cpp.
use project_tracker.Base.{
  ℕ, Bool, false, not, ◌&&◌, Option, none, some, List, [], ◌∷◌, ◌++◌, if◌then◌else◌, length,
  is_empty, Bytes, codes, pos,
}
use project_tracker.Json.{Json, string_at, array, Items, nil, cons}
use project_tracker.Models.{Project, to_json, to_json_full, from_json}
use project_tracker.Sanitizer.{is_valid_slug, is_clean_string, is_valid_status, is_valid_priority}
use project_tracker.Validator.{is_body_size_valid, safe_param_string, safe_param_int}
use project_tracker.Db.{Sql, Reading}
use project_tracker.Db.Projects.{create, update, remove, get_all, get_by_slug}
use project_tracker.Http.{Request, Response, json_error, json_type, new_response, write, add_header}
use project_tracker.Routes.{JsonText, Server, refuse, authorized, written}

abbrev pub success : Bytes
success = codes "{\"success\":true}"

unfoldable pub entries_array : List Project → Items
entries_array [] = nil
entries_array (p ∷ ps) = cons (to_json p) (entries_array ps)

-- GET /api/projects. `print` is `std::to_string`.
unfoldable pub list_projects :
    JsonText → Sql → (print : ℕ → Bytes) → Server → Request → Reading → Response
list_projects lib sql print srv req reading =
    let search = safe_param_string (req.param (codes "search")) 256 in
    let status = safe_param_string (req.param (codes "status")) 32 in
    let limit = safe_param_int (req.param (codes "limit")) (pos 0) (pos 0) (pos 1000) in
    let offset = safe_param_int (req.param (codes "offset")) (pos 0) (pos 0) (pos 100000) in
    let list = get_all sql srv.db reading search status limit offset in
    if not (is_empty status) && not (is_valid_status status)
    then json_error lib.dump 400 (codes "invalid status")
    else if not (is_empty search) && not (is_clean_string search 256)
    then json_error lib.dump 400 (codes "invalid search query")
    else add_header (codes "X-Total-Count") (print (length list))
        (json_type (write (lib.dump (array (entries_array list))) (new_response 200)))

-- GET /api/projects/<slug>
unfoldable pub get_project :
    JsonText → Sql → Server → (slug : Bytes) → (goes_through : Bool) → Response
get_project lib sql srv slug goes_through =
    let p = get_by_slug sql srv.db goes_through slug in
    if not (is_valid_slug slug)
    then json_error lib.dump 400 (codes "invalid slug")
    else if is_empty p.slug
    then json_error lib.dump 404 (codes "not found")
    else json_type (write (lib.dump (to_json_full p)) (new_response 200))

abbrev pub is_refused : (valid : Bytes → Bool) → Option Bytes → Bool
is_refused valid none = false
is_refused valid (some s) = not (valid s)

abbrev pub text_fields : List Bytes
text_fields = codes "name" ∷ codes "tags" ∷ codes "description" ∷ codes "repo_path" ∷ []

-- The first of the fields that holds a text which is not clean.
unfoldable pub unclean_field : Json → List Bytes → Option Bytes
unclean_field body [] = none
unclean_field body (field ∷ fields) =
    if is_refused (λ s. is_clean_string s 1024) (string_at field body)
    then some (codes "invalid " ++ field)
    else unclean_field body fields

-- The checks of the optional fields, which POST and PUT share; the message of the first that fails.
unfoldable pub field_error : Json → Option Bytes
field_error body =
    if is_refused is_valid_status (string_at (codes "status") body)
    then some (codes "invalid status")
    else if is_refused is_valid_priority (string_at (codes "priority") body)
    then some (codes "invalid priority")
    else unclean_field body text_fields

-- What POST does with the parsed body.
unfoldable pub create_from :
    JsonText
    → Server
    → Json
    → (slug : Option Bytes) → (now : Bytes) → (goes_through : Bool) → Server × Response
create_from lib srv body none now goes_through = refuse lib srv 400 (codes "slug required")
create_from lib srv body (some slug) now goes_through =
    if not (is_valid_slug slug)
    then refuse lib srv 400 (codes "invalid slug format")
    else elim (field_error body) [
      | some message ↦ refuse lib srv 400 message
      | none ↦
          written lib srv (create srv.db goes_through (from_json body) now) success
            (codes "create failed")
    ]

-- POST /api/projects
unfoldable pub post_project :
    JsonText
    → Server
    → Request
    → (clock : ℕ) → (now : Bytes) → (goes_through : Bool) → Server × Response
post_project lib srv req clock now goes_through = authorized lib srv req clock λ s.
    if not (is_body_size_valid (length req.body) 65536)
    then refuse lib s 413 (codes "body too large")
    else elim (lib.parse req.body) [
      | none ↦ refuse lib s 400 (codes "invalid json")
      | some body ↦ create_from lib s body (string_at (codes "slug") body) now goes_through
    ]

unfoldable pub update_from :
    JsonText
    → Server
    → (slug : Bytes) → Json
    → (now : Bytes) → (goes_through : Bool) → Server × Response
update_from lib srv slug body now goes_through = elim (field_error body) [
  | some message ↦ refuse lib srv 400 message
  | none ↦
      written lib srv (update srv.db goes_through slug body now) success (codes "update failed")
]

-- PUT /api/projects/<slug>
unfoldable pub put_project :
    JsonText
    → Server
    → Request
    → (slug : Bytes) → (clock : ℕ) → (now : Bytes) → (goes_through : Bool) → Server × Response
put_project lib srv req slug clock now goes_through = authorized lib srv req clock λ s.
    if not (is_valid_slug slug)
    then refuse lib s 400 (codes "invalid slug")
    else if not (is_body_size_valid (length req.body) 65536)
    then refuse lib s 413 (codes "body too large")
    else elim (lib.parse req.body) [
      | none ↦ refuse lib s 400 (codes "invalid json")
      | some body ↦ update_from lib s slug body now goes_through
    ]

-- DELETE /api/projects/<slug>
unfoldable pub delete_project :
    JsonText
    → Server
    → Request
    → (slug : Bytes) → (clock : ℕ) → (goes_through : ℕ → Bool) → Server × Response
delete_project lib srv req slug clock goes_through = authorized lib srv req clock λ s.
    if not (is_valid_slug slug)
    then refuse lib s 400 (codes "invalid slug")
    else written lib s (remove s.db goes_through slug) success (codes "delete failed")
