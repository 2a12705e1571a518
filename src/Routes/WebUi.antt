-- ===== src/Routes/WebUi.antt =====
-- src/routes/webui.cpp: login, logout and the pages. `read_file` is `readStaticFile`, which gives no
-- bytes where the file cannot be opened; `canonical` is that of std::filesystem, with `none` where
-- it throws.
pub mod Logins
use project_tracker.Base.{
  ℕ, Bool, not, ◌||◌, Option, none, some, if◌then◌else◌, is_empty, ◌++◌, Bytes, codes,
}
use project_tracker.Text.{contains, contains_byte, found_at_start}
use project_tracker.Json.{Json, string_at}
use project_tracker.Auth.{
  Auth, validate_api_key, create_session, validate_session, destroy_session, extract_session_token,
}
use project_tracker.Http.{Request, Response, json_error, new_response, write, add_header}
use project_tracker.Routes.{JsonText}

unfoldable pub get_session_token : Request → Bytes
get_session_token req = extract_session_token (req.header (codes "Cookie"))

abbrev pub html_page : Bytes → Response
html_page content =
    add_header (codes "Content-Type") (codes "text/html; charset=utf-8")
      (write content (new_response 200))

-- GET /login
unfoldable pub login_page : JsonText → (read_file : Bytes → Bytes) → (webui_dir : Bytes) → Response
login_page lib read_file webui_dir =
    let content = read_file (webui_dir ++ codes "/html/login.html") in
    if is_empty content
    then json_error lib.dump 500 (codes "login page not found")
    else html_page content

abbrev pub session_cookie : Bytes → Bytes
session_cookie token =
    codes "session=" ++ (token ++ codes "; HttpOnly; SameSite=Strict; Path=/; Max-Age=86400")

-- The answer to a login, from what `createSession` gives.
unfoldable pub logged_in : JsonText → Auth × Bytes → Auth × Response
logged_in lib (auth, token) =
    if is_empty token then (auth, json_error lib.dump 503 (codes "too many sessions")) else (
      auth,
      write (codes "{\"success\":true}") (
          add_header (codes "Set-Cookie") (session_cookie token)
            (add_header (codes "Content-Type") (codes "application/json") (new_response 200))),
    )

unfoldable pub login_with :
    JsonText
    → Auth
    → Request
    → (key : Option Bytes) → (random : Bytes) → (clean_now created active : ℕ) → Auth × Response
login_with lib auth req none random clean_now created active =
    (auth, json_error lib.dump 400 (codes "invalid request"))
login_with lib auth req (some key) random clean_now created active =
    if not (validate_api_key auth key)
    then (auth, json_error lib.dump 401 (codes "invalid key"))
    else logged_in lib (create_session auth req.remote_ip_address random clean_now created active)

-- POST /webui/login, with the random bytes of the token and the readings of the clock
unfoldable pub login :
    JsonText → Auth → Request → (random : Bytes) → (clean_now created active : ℕ) → Auth × Response
login lib auth req random clean_now created active = elim (lib.parse req.body) [
  | none ↦ (auth, json_error lib.dump 400 (codes "invalid request"))
  | some body ↦
      login_with lib auth req (string_at (codes "key") body) random clean_now created active
]

-- POST /webui/logout
unfoldable pub logout : Auth → Request → Auth × Response
logout auth req =
    let token = get_session_token req in
    (
      (if not (is_empty token) then destroy_session auth token else auth),
      write (codes "{\"success\":true}") (
          add_header (codes "Content-Type") (codes "application/json") (
            add_header (codes "Set-Cookie")
              (codes "session=; HttpOnly; SameSite=Strict; Path=/; Max-Age=0") (new_response 200))),
    )

-- GET /
unfoldable pub main_page :
    JsonText
    → (read_file : Bytes → Bytes) → (webui_dir : Bytes) → Auth
    → Request
    → (now : ℕ) → Auth × Response
main_page lib read_file webui_dir auth req now =
    let (auth', ok) = validate_session auth (get_session_token req) req.remote_ip_address now in
    let content = read_file (webui_dir ++ codes "/html/index.html") in
    if not ok
    then (auth', add_header (codes "Location") (codes "/login") (new_response 302))
    else if is_empty content
    then (auth', json_error lib.dump 500 (codes "app not found"))
    else (auth', html_page content)

-- The file behind its canonical path, which has to begin with that of the directory.
unfoldable pub static_file :
    JsonText
    → (read_file : Bytes → Bytes) → (base requested : Option Bytes) → (content_type : Bytes)
    → Response
static_file lib read_file none requested content_type = json_error lib.dump 404 (codes "not found")
static_file lib read_file (some base) none content_type =
    json_error lib.dump 404 (codes "not found")
static_file lib read_file (some base) (some requested) content_type =
    let content = read_file requested in
    if not (found_at_start requested base)
    then json_error lib.dump 403 (codes "forbidden")
    else if is_empty content
    then json_error lib.dump 404 (codes "not found")
    else add_header (codes "Cache-Control") (codes "public, max-age=3600")
        (add_header (codes "Content-Type") content_type (write content (new_response 200)))

-- What the two routes of static files have in common
unfoldable pub static_route :
    JsonText
    → (read_file : Bytes → Bytes) → (canonical : Bytes → Option Bytes)
    → (webui_dir folder content_type filename : Bytes) → Response
static_route lib read_file canonical webui_dir folder content_type filename =
    if contains filename (codes "..") || contains_byte filename b'/'
    then json_error lib.dump 400 (codes "invalid path")
    else static_file lib read_file (canonical webui_dir)
        (canonical (webui_dir ++ (folder ++ filename))) content_type

-- GET /static/css/<filename>
unfoldable pub css_route :
    JsonText
    → (read_file : Bytes → Bytes) → (canonical : Bytes → Option Bytes)
    → (webui_dir filename : Bytes) → Response
css_route lib read_file canonical webui_dir filename =
    static_route lib read_file canonical webui_dir (codes "/css/") (codes "text/css") filename

-- GET /static/js/<filename>
unfoldable pub js_route :
    JsonText
    → (read_file : Bytes → Bytes) → (canonical : Bytes → Option Bytes)
    → (webui_dir filename : Bytes) → Response
js_route lib read_file canonical webui_dir filename =
    static_route lib read_file canonical webui_dir (codes "/js/") (codes "application/javascript")
      filename
