-- ===== src/Tests/Sessions.antt =====
-- Keys, cookies and sessions.
use project_tracker.Base.{
  arith, ◌⊎◌, ◌≡◌, ◌*◌, ◌⊎◌, ◌↔◌, refl, true, false, [], ◌∷◌, Bytes, codes, bytes_eq,
}
use project_tracker.Base.Dict.{lookup, put, erase}
use project_tracker.Text.{find, find_from, starts_with}
use project_tracker.Auth.{
  Auth, new_auth, init, constant_time_compare, validate_api_key, generate_token, create_session,
  validate_session, destroy_session, clean_expired_sessions, extract_session_token, is_authorized,
  use_session, make_room, emplace, up_to_semicolon, is_expired, second,
}
use project_tracker.Auth.Cookie.{NamesToken}
use project_tracker.Base.{◌≢◌}
use project_tracker.Auth.Sessions.{IsLive, is_authorized_iff}

sessions : Unit {0}
unfolding lookup put erase bytes_eq find find_from starts_with init validate_api_key generate_token
    create_session validate_session destroy_session clean_expired_sessions extract_session_token
    is_authorized use_session make_room emplace up_to_semicolon is_expired constant_time_compare
sessions = tt

abbrev ann : Bytes
ann = codes "10.0.0.1"

abbrev random : Bytes
random = 171 ∷ 7 ∷ []

abbrev keyed : Auth
keyed = init new_auth (codes "key")

-- A login of Ann at second 5.
abbrev logged_in : Auth
logged_in = (create_session keyed ann random 0 (5 * second) (5 * second)).0

session_tests :
    (generate_token random ≡ codes "ab07")
    × ((validate_session logged_in (codes "ab07") ann (6 * second)).1 ≡ true)
    × ((validate_session logged_in (codes "ab07") (codes "10.0.0.2") (6 * second)).1 ≡ false)
    × ((validate_session logged_in (codes "ab07") ann (86406 * second)).1 ≡ false)
    × (extract_session_token (codes "a=1; session=ab07; b=2") ≡ codes "ab07")
unfolding sessions
session_tests = (refl, refl, refl, refl, refl)

is_authorized_iff_example :
    ((is_authorized logged_in (codes "kex") (codes "session=ab07") ann (6 * second)).1 ≡ true) ↔ (
      ((codes "kex" ≢ []) × ((logged_in.auth_enabled ≡ false) ⊎ (codes "kex" ≡ logged_in.api_key)))
      ⊎ ((token : Bytes) × NamesToken (codes "session=ab07") token
          × IsLive logged_in token ann (6 * second)))
unfolding sessions
is_authorized_iff_example =
    is_authorized_iff logged_in (codes "kex") (codes "session=ab07") ann (6 * second) (ground arith)
      (ground arith)
