-- ===== src/Routes/WebUi/Logins.antt =====
-- What a browser sees between its login and its logout.
use project_tracker.Base.{
  ℕ, ◌-◌, ◌/◌, ◌≡◌, refl, some, none, [], Bool, true, false, not, if◌then◌else◌, is_empty,
  Bool-cases, inl, inr, Bytes, codes, ◌++◌, ◌∷◌, arith, All, All-append, ap, ◌∙◌, ◌≢◌, bytes_eq,
}
use project_tracker.Base.Dict.{lookup}
use project_tracker.Auth.{
  Auth, validate_session, destroy_session, validate_api_key, create_session, generate_token,
  make_room, is_authorized, extract_session_token, second,
}
use project_tracker.Auth.Keys.{IsByte, generate_token-HexDigit}
use project_tracker.Text.Split.{Lacks}
use project_tracker.Auth.Cookie.{HexDigit-Lacks, extract_session_token-generate_token}
use project_tracker.Auth.Sessions.{Within, validate_session_iff, is_authorized_lem}
use project_tracker.Auth.Lifetimes.{validate-destroy_session, validate-create_session}
use project_tracker.Http.{Request, Response, new_response, add_header}
use project_tracker.Routes.{JsonText}
use project_tracker.Routes.WebUi.{get_session_token, logout, main_page, login_with, logged_in}

refused_empty :
    (a : Auth) (token ip : Bytes) (now : ℕ)
    → is_empty token ≡ true
    → (validate_session a token ip now).1 ≡ false
unfolding validate_session
refused_empty a token ip now h = rw h

refused_after_logout :
    (a : Auth) (token ip : Bytes) (now : ℕ)
    → (validate_session
        (if not (is_empty token) then destroy_session a token else a)
        token
        ip
        now).1
      ≡ false
refused_after_logout a token ip now = elim (Bool-cases (is_empty token)) [
  | inl e ↦ rw e (refused_empty a token ip now e)
  | inr e ↦ rw e (validate-destroy_session a token ip now)
]

-- After a logout the main page sends the same cookie to the login, from any address at any time.
pub main_page-logout :
    (lib : JsonText) (read_file : Bytes → Bytes) (webui_dir : Bytes) (a : Auth)
    (req again : Request) (now : ℕ)
    → get_session_token again ≡ get_session_token req
    → (main_page lib read_file webui_dir (logout a req).0 again now).1
      ≡ add_header (codes "Location") (codes "/login") (new_response 302)
unfolding main_page logout
main_page-logout lib read_file webui_dir a req again now e =
    rw (e, refused_after_logout a (get_session_token req) again.remote_ip_address now)

kept_auth : (test : Bool) (x y : Auth × Response) → x.0 ≡ y.0 → (if test then x else y).0 ≡ y.0
kept_auth true x y e = e
kept_auth false x y e = refl

create_session-token :
    (a : Auth) (ip random : Bytes) (clean_now created active : ℕ)
    → is_empty (create_session a ip random clean_now created active).1 ≡ false
    → (create_session a ip random clean_now created active).1 ≡ generate_token random
unfolding create_session
create_session-token a ip random clean_now created active h = ground (arith, h)

-- The state after a login with an accepted key is that of `createSession`.
login_with-accepted :
    (lib : JsonText) (a : Auth) (req : Request) (key random : Bytes) (clean_now created active : ℕ)
    → validate_api_key a key ≡ true
    → (login_with lib a req (some key) random clean_now created active).0
      ≡ (create_session a req.remote_ip_address random clean_now created active).0
unfolding login_with logged_in
login_with-accepted lib a req key random clean_now created active h =
    rw (h, login_with) (kept_auth _ _ _ refl)

is_authorized-cookie :
    (a : Auth) (cookie token ip : Bytes) (now : ℕ)
    → extract_session_token cookie ≡ token
    → (validate_session a token ip now).1 ≡ true
    → (is_authorized a [] cookie ip now).1 ≡ true
is_authorized-cookie a cookie token ip now e h =
    (is_authorized_lem a [] cookie ip now).1
      (inr (rw e ((validate_session_iff a token ip now).0 h)))

abbrev attributes : Bytes
attributes = codes " HttpOnly; SameSite=Strict; Path=/; Max-Age=86400"

logged_in-accepted :
    (lib : JsonText) (made : Auth × Bytes)
    → is_empty made.1 ≡ false
    → ((logged_in lib made).1.code ≡ 200)
      × (lookup (codes "Set-Cookie") (logged_in lib made).1.headers
          ≡ some ((codes "session=" ++ made.1) ++ 59 ∷ attributes))
unfolding logged_in lookup bytes_eq
logged_in-accepted lib (auth, []) h = absurd cc
logged_in-accepted lib (auth, c ∷ made) h = (refl, refl)

login_with-answer :
    (lib : JsonText) (a : Auth) (req : Request) (key random : Bytes) (clean_now created active : ℕ)
    → validate_api_key a key ≡ true
    → (login_with lib a req (some key) random clean_now created active).1
      ≡ (logged_in lib (create_session a req.remote_ip_address random clean_now created active)).1
unfolding login_with
login_with-answer lib a req key random clean_now created active h = rw (h, login_with) refl

Lacks-cookie :
    (random : Bytes) → All IsByte random → Lacks 59 (codes "session=" ++ generate_token random)
Lacks-cookie random bytes =
    All-append (λ c. c ≢ 59) (codes "session=") (generate_token random)
      (
        λ e. omega arith,
        (
          λ e. omega arith,
          (
            λ e. omega arith,
            (
              λ e. omega arith,
              (λ e. omega arith, (λ e. omega arith, (λ e. omega arith, (λ e. omega arith, tt)))),
            ),
          ),
        ),
      )
      (HexDigit-Lacks (generate_token random) (generate_token-HexDigit random bytes))

-- A login with an accepted key, where there is room for a session, is answered with status 200 and a
-- Set-Cookie header, and lets the browser write: the part of that header before its first ';', which
-- is what the browser sends back, authorises requests from the same address until the timeout has
-- passed since the login, alone as the Cookie header or with others behind it. The random bytes
-- give a token that is not in use.
pub is_authorized-login :
    (lib : JsonText) (a : Auth) (req : Request) (key random others : Bytes)
    (clean_now created active now : ℕ)
    → validate_api_key a key ≡ true
    → All IsByte random
    → is_empty (create_session a req.remote_ip_address random clean_now created active).1 ≡ false
    → lookup (generate_token random) (make_room a clean_now).sessions ≡ none
    → Within ((now - active) / second) a.session_timeout
    → let after = login_with lib a req (some key) random clean_now created active in
      (after.1.code ≡ 200)
      × ((cookie : Bytes) × (rest : Bytes) × (lookup (codes "Set-Cookie") after.1.headers
            ≡ some (cookie ++ 59 ∷ rest))
          × Lacks 59 cookie
          × ((is_authorized after.0 [] cookie req.remote_ip_address now).1 ≡ true)
          × ((is_authorized after.0 [] (cookie ++ 59 ∷ others) req.remote_ip_address now).1 ≡ true))
is_authorized-login lib a req key random others clean_now created active now ok bytes room unused
      fresh =
    let ip = req.remote_ip_address in
    let made = create_session a ip random clean_now created active in
    let token = create_session-token a ip random clean_now created active room in
    let live =
      rw token at
        (validate-create_session a ip random clean_now created active now room unused fresh) in
    let (alone, with_others) = extract_session_token-generate_token random others bytes in
    let state = login_with-accepted lib a req key random clean_now created active ok in
    let answer = login_with-answer lib a req key random clean_now created active ok in
    let (code, sets) = logged_in-accepted lib made room in
    (
      ap (λ r. r.code) answer ∙ code,
      (
        codes "session=" ++ generate_token random,
        attributes,
        ap (λ r. lookup (codes "Set-Cookie") r.headers) answer
            ∙ sets
            ∙ ap (λ t. some ((codes "session=" ++ t) ++ 59 ∷ attributes)) token,
        Lacks-cookie random bytes,
        rw state (is_authorized-cookie _ _ _ ip now alone live),
        rw state (is_authorized-cookie _ _ _ ip now with_others live),
      ),
    )
