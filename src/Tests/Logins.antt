-- ===== src/Tests/Logins.antt =====
-- Login, logout and the pages.
use project_tracker.Base.{
  ◌≡◌, ◌*◌, refl, arith, true, if◌then◌else◌, ◌∷◌, [], ◌++◌, some, none, Bytes, codes, bytes_eq,
}
use project_tracker.Base.Dict.{lookup, put, erase}
use project_tracker.Text.{contains, find, find_from, starts_with, found_at_start}
use project_tracker.Text.Split.{Lacks}
use project_tracker.Json.{null}
use project_tracker.Auth.{
  Auth, new_auth, init, validate_api_key, constant_time_compare, compare_from, generate_token,
  create_session, make_room, emplace, extract_session_token, up_to_semicolon, is_authorized,
  destroy_session, validate_session, use_session, is_expired, second,
}
use project_tracker.Http.{get, Request, new_response, add_header, json_error}
use project_tracker.Routes.{JsonText}
use project_tracker.Routes.WebUi.{
  get_session_token, login_with, logged_in, logout, main_page, static_route, static_file,
}
use project_tracker.Routes.WebUi.Logins.{main_page-logout, is_authorized-login}

logins : Unit {0}
unfolding bytes_eq lookup put erase contains find find_from starts_with found_at_start init
    validate_api_key constant_time_compare compare_from generate_token create_session make_room
    emplace extract_session_token up_to_semicolon is_authorized destroy_session validate_session
    use_session is_expired json_error get_session_token login_with logged_in logout main_page
    static_route static_file
logins = tt

abbrev lib : JsonText
lib = record { parse = λ text. some null; dump = λ j. codes "{}" }

abbrev keyed : Auth
keyed = init new_auth (codes "key")

abbrev random : Bytes
random = 171 ∷ 7 ∷ []

abbrev cookie_only : Bytes → Bytes
cookie_only name = if bytes_eq name (codes "Cookie") then codes "session=ab07" else []

abbrev browser : Request
browser = record {
  method = get;
  header = cookie_only;
  param = λ name. none;
  body = [];
  remote_ip_address = codes "10.0.0.1";
}

abbrev logged : Auth
logged = (login_with lib keyed browser (some (codes "key")) random 0 5 5).0

abbrev page : Bytes → Bytes
page path = codes "<p>"

login_tests :
    ((main_page lib page [] keyed browser 6).1.code ≡ 302)
    × ((main_page lib page [] logged browser 6).1.code ≡ 200)
    × ((login_with lib keyed browser (some (codes "kex")) random 0 5 5).1.code ≡ 401)
    × ((static_route lib page
          (λ path. some path)
          (codes "/ui")
          (codes "/css/")
          (codes "text/css")
          (codes "a.css")).code
        ≡ 200)
    × ((static_route lib page
          (λ path. some path)
          (codes "/ui")
          (codes "/css/")
          (codes "text/css")
          (codes "..")).code
        ≡ 400)
unfolding logins
login_tests = (refl, refl, refl, refl, refl)

main_page-logout_example :
    (main_page lib page [] (logout logged browser).0 browser 6).1
    ≡ add_header (codes "Location") (codes "/login") (new_response 302)
main_page-logout_example = main_page-logout lib page [] logged browser browser 6 refl

is_authorized-login_example :
    let after = login_with lib keyed browser (some (codes "key")) random 0 5 5 in
    (after.1.code ≡ 200)
    × ((cookie : Bytes) × (rest : Bytes) × (lookup (codes "Set-Cookie") after.1.headers
          ≡ some (cookie ++ 59 ∷ rest))
        × Lacks 59 cookie
        × ((is_authorized after.0 [] cookie (codes "10.0.0.1") (6 * second)).1 ≡ true)
        × ((is_authorized after.0 []
              (cookie ++ 59 ∷ codes " a=1")
              (codes "10.0.0.1")
              (6 * second)).1
            ≡ true))
unfolding logins
is_authorized-login_example =
    is_authorized-login lib keyed browser (codes "key") random (codes " a=1") 0 5 5 (6 * second)
      refl (ground arith) refl refl (ground arith)
