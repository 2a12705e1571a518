-- ===== src/Auth.antt =====
-- src/security/auth.cpp. Times are readings of the steady clock in nanoseconds; the bytes that
-- /dev/urandom or the fallback generator gives are an argument. Every method but the two
-- helpers that the source names so holds the session mutex, so that a call is one step.
pub mod Keys
pub mod Cookie
pub mod Sessions
pub mod Lifetimes
pub mod Limits
use Prim.Native.Nat.{bit_or, bit_xor}
use mathlib.Core.List.{flat_map}
use project_tracker.Base.{
  ℕ, suc, ◌+◌, ◌-◌, ◌/◌, ◌%◌, Bool, true, false, not, ◌&&◌, ◌||◌, Option, none, some, List, [], ◌∷◌,
  ◌++◌, ltb, leb, ◌==◌, if◌then◌else◌, length, is_empty, take, drop, keep, Bytes, bytes_eq, codes,
  ℤ, pos, negsuc,
}
use project_tracker.Base.Dict.{lookup, put, erase}
use project_tracker.Text.{find, find_from}

pub record Session : Type 0 where
  pub token : Bytes
  pub client_ip : Bytes
  pub created : ℕ
  pub last_activity : ℕ
  pub authenticated : Bool

pub record Auth : Type 0 where
  pub api_key : Bytes
  pub auth_enabled : Bool
  pub sessions : List (Bytes × Session)
  pub max_sessions : ℕ
  pub session_timeout : ℤ
  pub bind_session_to_ip : Bool

-- the constructor
abbrev pub new_auth : Auth
new_auth = record {
  api_key = [];
  auth_enabled = false;
  sessions = [];
  max_sessions = 50;
  session_timeout = pos 86400;
  bind_session_to_ip = true;
}

unfoldable pub init : Auth → Bytes → Auth
init a api_key = record a { api_key = api_key; auth_enabled = not (is_empty api_key) }

unfoldable pub config_sessions : Auth → ℕ → ℤ → Bool → Auth
config_sessions a max_sessions timeout_sec bind_to_ip = record a {
  max_sessions = max_sessions;
  session_timeout = timeout_sec;
  bind_session_to_ip = bind_to_ip;
}

-- the loop `result |= a[i] ^ b[i]`
unfoldable pub compare_from : ℕ → Bytes → Bytes → ℕ
compare_from result [] b = result
compare_from result (x ∷ a) [] = result
compare_from result (x ∷ a) (y ∷ b) = compare_from (bit_or result (bit_xor x y)) a b

unfoldable pub constant_time_compare : Bytes → Bytes → Bool
unfolding compare_from
constant_time_compare a b = if not (length a == length b) then false else compare_from 0 a b == 0

abbrev pub hex_digit : ℕ → ℕ
hex_digit d = if ltb d 10 then b'0' + d else b'a' + (d - 10)

-- Two digits for each byte, as `std::hex` with `setw(2)` and `setfill('0')` prints it.
unfoldable pub generate_token : (random : Bytes) → Bytes
generate_token [] = []
generate_token (b ∷ bytes) = hex_digit (b / 16) ∷ hex_digit (b % 16) ∷ generate_token bytes

unfoldable pub validate_api_key : Auth → Bytes → Bool
validate_api_key a provided =
    if not a.auth_enabled
    then true
    else if is_empty provided
    then false
    else constant_time_compare provided a.api_key

abbrev pub second : ℕ
second = 1_000_000_000

-- `age > timeout` in seconds, where the timeout may be negative
abbrev pub is_longer : ℕ → ℤ → Bool
is_longer n (pos m) = ltb m n
is_longer n (negsuc m) = true

unfoldable pub is_expired : Auth → (now : ℕ) → Session → Bool
is_expired a now session = is_longer ((now - session.last_activity) / second) a.session_timeout

unfoldable pub clean_expired_sessions : Auth → (now : ℕ) → Auth
clean_expired_sessions a now = record a {
  sessions = keep (λ entry. not (is_expired a now entry.1)) a.sessions;
}

abbrev pub get_session_count : Auth → ℕ
get_session_count a = length a.sessions

-- `emplace` leaves the entry of a key that is there already.
unfoldable pub emplace : Bytes → Session → List (Bytes × Session) → List (Bytes × Session)
emplace token session sessions = elim (lookup token sessions) [
  | none ↦ put token session sessions
  | some found ↦ sessions
]

abbrev pub new_session : Bytes → Bytes → (created active : ℕ) → Session
new_session token client_ip created active = record {
  token = token;
  client_ip = client_ip;
  created = created;
  last_activity = active;
  authenticated = true;
}

-- The lookup table after the limit was enforced.
unfoldable pub make_room : Auth → (clean_now : ℕ) → Auth
make_room a clean_now =
    if leb a.max_sessions (length a.sessions) then clean_expired_sessions a clean_now else a

-- The token is empty if the session is refused.
unfoldable pub create_session :
    Auth → Bytes → (random : Bytes) → (clean_now created active : ℕ) → Auth × Bytes
create_session a client_ip random clean_now created active =
    let room = make_room a clean_now in
    if leb room.max_sessions (length room.sessions)
    then (room, [])
    else let token = generate_token random in
      (
        record room {
          sessions = emplace token (new_session token client_ip created active) room.sessions;
        },
        token,
      )

-- The session's checks, and the time of its use.
unfoldable pub use_session : Auth → Bytes → Session → Bytes → (now : ℕ) → Auth × Bool
use_session a token session client_ip now =
    if is_expired a now session
    then (a, false)
    else if a.bind_session_to_ip && not (bytes_eq session.client_ip client_ip)
    then (a, false)
    else (
      record a { sessions = put token (record session { last_activity = now }) a.sessions },
      session.authenticated,
    )

unfoldable pub validate_session : Auth → (token client_ip : Bytes) → (now : ℕ) → Auth × Bool
validate_session a token client_ip now =
    if is_empty token then (a, false) else elim (lookup token a.sessions) [
      | none ↦ (a, false)
      | some session ↦ use_session a token session client_ip now
    ]

unfoldable pub destroy_session : Auth → Bytes → Auth
destroy_session a token = record a { sessions = erase token a.sessions }

-- The part of a text up to the first ';', or up to its end.
unfoldable pub up_to_semicolon : Bytes → Bytes
up_to_semicolon rest = elim (find rest (b';' ∷ [])) [ none ↦ rest | some end ↦ take end rest ]

-- `substr(pos, end - pos)`
abbrev pub token_at : Bytes → ℕ → Bytes
token_at header start = up_to_semicolon (drop start header)

abbrev pub token_behind : Bytes → Option ℕ → Bytes
token_behind header none = []
token_behind header (some at) = token_at header (at + length (codes "session="))

unfoldable pub extract_session_token : Bytes → Bytes
extract_session_token cookie_header =
    if is_empty cookie_header
    then []
    else token_behind cookie_header (find cookie_header (codes "session="))

unfoldable pub is_authorized :
    Auth → (api_key_header cookie_header client_ip : Bytes) → (now : ℕ) → Auth × Bool
is_authorized a api_key_header cookie_header client_ip now =
    if not (is_empty api_key_header) && validate_api_key a api_key_header
    then (a, true)
    else let token = extract_session_token cookie_header in
      if is_empty token then (a, false) else validate_session a token client_ip now
