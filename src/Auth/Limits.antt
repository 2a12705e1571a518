-- ===== src/Auth/Limits.antt =====
-- The number of sessions under histories of calls.
use project_tracker.Base.{
  ◌++◌, ℕ, ◌+◌, ◌≤◌, ◌≡◌, Bool, not, ◌&&◌, some, List, [], ◌∷◌, arith, length, length-keep-le,
  is_empty, Bytes, bytes_eq, Option-cases, inl, inr, if_cases, leb,
}
use project_tracker.Base.Dict.{lookup, length-put_le, length-put_known, length-erase_le}
use project_tracker.Auth.{
  Session, Auth, is_expired, clean_expired_sessions, emplace, make_room, new_session,
  create_session, use_session, validate_session, destroy_session, is_authorized, validate_api_key,
  extract_session_token, generate_token,
}

-- The calls that change the session table while the server runs.
pub data Call : Type 0 where
  creates : (client_ip random : Bytes) (clean_now created active : ℕ) → Call
  validates : (token client_ip : Bytes) (now : ℕ) → Call
  authorizes : (api_key_header cookie_header client_ip : Bytes) (now : ℕ) → Call
  destroys : (token : Bytes) → Call
  cleans : (now : ℕ) → Call

unfoldable pub step : Auth → Call → Auth
step a (creates client_ip random clean_now created active) =
    (create_session a client_ip random clean_now created active).0
step a (validates token client_ip now) = (validate_session a token client_ip now).0
step a (authorizes api_key_header cookie_header client_ip now) =
    (is_authorized a api_key_header cookie_header client_ip now).0
step a (destroys token) = destroy_session a token
step a (cleans now) = clean_expired_sessions a now

unfoldable pub run : Auth → List Call → Auth
run a [] = a
run a (c ∷ cs) = run (step a c) cs

-- How many cleanups a history has.
abbrev pub is_cleanup : Call → ℕ
is_cleanup (creates ip random t u v) = 0
is_cleanup (validates token ip now) = 0
is_cleanup (authorizes key cookie ip now) = 0
is_cleanup (destroys token) = 0
is_cleanup (cleans now) = 1

unfoldable pub cleanups : List Call → ℕ
cleanups [] = 0
cleanups (c ∷ cs) = is_cleanup c + cleanups cs

pub cleanups-append : (cs ds : List Call) → cleanups (cs ++ ds) ≡ cleanups cs + cleanups ds
unfolding cleanups
cleanups-append [] ds = omega arith
cleanups-append (c ∷ cs) ds = omega (arith, cleanups-append cs ds)

abbrev pub IsBounded : Auth → Type 0
IsBounded a = length a.sessions ≤ a.max_sessions

emplace-length :
    (token : Bytes) (s : Session) (m : List (Bytes × Session))
    → length (emplace token s m) ≤ length m + 1
unfolding emplace
emplace-length token s m = ground (arith, length-put_le token s m)

make_room-IsBounded : (a : Auth) (now : ℕ) → IsBounded a → IsBounded (make_room a now)
unfolding make_room clean_expired_sessions
make_room-IsBounded a now h =
    if_cases IsBounded (leb a.max_sessions (length a.sessions)) _ _
      (λ _. omega (arith, length-keep-le (λ e. not (is_expired a now e.1)) a.sessions)) (λ _. h)

create_session-IsBounded :
    (a : Auth) (ip random : Bytes) (clean_now created active : ℕ)
    → IsBounded a
    → IsBounded (create_session a ip random clean_now created active).0
unfolding create_session
create_session-IsBounded a ip random clean_now created active h =
    let room = make_room a clean_now in
    let token = generate_token random in
    if_cases (λ (r : Auth × Bytes). IsBounded r.0) (leb room.max_sessions (length room.sessions)) _
      _ (λ _. make_room-IsBounded a clean_now h)
      (λ below.
        ground (arith, emplace-length token (new_session token ip created active) room.sessions))

use_session-IsBounded :
    (a : Auth) (token : Bytes) (s : Session) (ip : Bytes) (now : ℕ)
    → lookup token a.sessions ≡ some s
    → IsBounded a
    → IsBounded (use_session a token s ip now).0
unfolding use_session
use_session-IsBounded a token s ip now e h =
    let kept = length-put_known token (record s { last_activity = now }) s a.sessions e in
    if_cases (λ (r : Auth × Bool). IsBounded r.0) (is_expired a now s) _ _ (λ _. h)
      λ _.
        if_cases (λ (r : Auth × Bool). IsBounded r.0)
          (a.bind_session_to_ip && not (bytes_eq s.client_ip ip)) _ _ (λ _. h)
          (λ _. omega (arith, kept))

validate_session-IsBounded :
    (a : Auth) (token ip : Bytes) (now : ℕ)
    → IsBounded a
    → IsBounded (validate_session a token ip now).0
unfolding validate_session
validate_session-IsBounded a token ip now h =
    if_cases (λ (r : Auth × Bool). IsBounded r.0) (is_empty token) _ _ (λ _. h)
      λ _. elim (Option-cases (lookup token a.sessions)) [
        | inl e ↦ rw e h
        | inr (s, e) ↦ rw e (use_session-IsBounded a token s ip now e h)
      ]

is_authorized-IsBounded :
    (a : Auth) (key cookie ip : Bytes) (now : ℕ)
    → IsBounded a
    → IsBounded (is_authorized a key cookie ip now).0
unfolding is_authorized
is_authorized-IsBounded a key cookie ip now h =
    if_cases (λ (r : Auth × Bool). IsBounded r.0) (not (is_empty key) && validate_api_key a key) _ _
      (λ _. h)
      λ _.
        if_cases (λ (r : Auth × Bool). IsBounded r.0) (is_empty (extract_session_token cookie)) _ _
          (λ _. h) (λ _. validate_session-IsBounded a (extract_session_token cookie) ip now h)

pub step-IsBounded : (a : Auth) (c : Call) → IsBounded a → IsBounded (step a c)
unfolding step destroy_session clean_expired_sessions
step-IsBounded a (creates ip random t u v) h = create_session-IsBounded a ip random t u v h
step-IsBounded a (validates token ip now) h = validate_session-IsBounded a token ip now h
step-IsBounded a (authorizes key cookie ip now) h = is_authorized-IsBounded a key cookie ip now h
step-IsBounded a (destroys token) h = omega (arith, length-erase_le token a.sessions)
step-IsBounded a (cleans now) h =
    omega (arith, length-keep-le (λ e. not (is_expired a now e.1)) a.sessions)

-- Under any history of logins, requests, logouts and cleanups there are never more sessions than
-- the configured maximum.
pub run-IsBounded : (a : Auth) (cs : List Call) → IsBounded a → IsBounded (run a cs)
unfolding run
run-IsBounded a [] h = h
run-IsBounded a (c ∷ cs) h = run-IsBounded (step a c) cs (step-IsBounded a c h)
