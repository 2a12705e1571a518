-- ===== src/Auth/Lifetimes.antt =====
-- Sessions from their creation to their end.
use project_tracker.Base.{
  ℕ, ◌-◌, ◌/◌, ◌≡◌, ◌≢◌, refl, ap, true, false, not, none, some, List, [], ◌∷◌, arith, length,
  is_empty, Bytes, bytes_eq_refl, bytes_eq_iff, inr, if_cases, leb,
}
use project_tracker.Base.Dict.{lookup, erase, lookup-put_self, lookup-erase, lookup-keep}
use project_tracker.Auth.{
  Session, Auth, second, is_expired, clean_expired_sessions, emplace, make_room, new_session,
  create_session, validate_session, destroy_session, generate_token,
}
use project_tracker.Auth.Sessions.{
  IsLive, IsLive-of_valid, Within, fresh-not_expired, valid_of_IsLive,
}

make_room-settings :
    (a : Auth) (now : ℕ)
    → ((make_room a now).session_timeout ≡ a.session_timeout)
      × ((make_room a now).bind_session_to_ip ≡ a.bind_session_to_ip)
unfolding make_room clean_expired_sessions
make_room-settings a now = ground arith

emplace_fresh :
    (token : Bytes) (s : Session) (m : List (Bytes × Session))
    → lookup token m ≡ none
    → lookup token (emplace token s m) ≡ some s
unfolding emplace
emplace_fresh token s m e = rw (e, emplace) (lookup-put_self token s m)

-- A login that gives a token opens a session: with a token that is not in use, the same address is
-- accepted under it until the timeout has passed since the login.
pub validate-create_session :
    (a : Auth) (ip random : Bytes) (clean_now created active now : ℕ)
    → is_empty (create_session a ip random clean_now created active).1 ≡ false
    → lookup (generate_token random) (make_room a clean_now).sessions ≡ none
    → Within ((now - active) / second) a.session_timeout
    → (validate_session
        (create_session a ip random clean_now created active).0
        (create_session a ip random clean_now created active).1
        ip
        now).1
      ≡ true
unfolding create_session
validate-create_session a ip random clean_now created active now h unused fresh =
    let room = make_room a clean_now in
    let token = generate_token random in
    if_cases
      (λ (r : Auth × Bytes). is_empty r.1 ≡ false → (validate_session r.0 r.1 ip now).1 ≡ true)
      (leb room.max_sessions (length room.sessions)) _ _ (λ _ no. cc)
      (λ _ some_token. valid_of_IsLive _ token ip now (record {
        session = new_session token ip created active;
        has_token = some_token;
        found = emplace_fresh token (new_session token ip created active) room.sessions unused;
        fresh = rw ((make_room-settings a clean_now).0) fresh;
        bound = inr refl;
        authenticated = refl;
      }))
      h

-- After a logout the token is refused, whatever the address and the time.
pub validate-destroy_session :
    (a : Auth) (token ip : Bytes) (now : ℕ)
    → (validate_session (destroy_session a token) token ip now).1 ≡ false
unfolding validate_session destroy_session
validate-destroy_session a [] ip now = refl
validate-destroy_session a (c ∷ token) ip now =
    let gone : lookup (c ∷ token) (erase (c ∷ token) a.sessions) ≡ none =
      ground (arith, lookup-erase (c ∷ token) (c ∷ token) a.sessions, bytes_eq_refl (c ∷ token)) in
    rw (gone, validate_session)

-- The other sessions do not notice: each token but the one that was logged out is accepted as before.
pub validate-destroy_session_other :
    (a : Auth) (token other ip : Bytes) (now : ℕ)
    → token ≢ other
    → IsLive a other ip now
    → (validate_session (destroy_session a token) other ip now).1 ≡ true
unfolding destroy_session
validate-destroy_session_other a token other ip now ne v =
    valid_of_IsLive (destroy_session a token) other ip now (record {
      session = v.session;
      has_token = v.has_token;
      found =
          ground
            (arith, lookup-erase other token a.sessions, bytes_eq_iff token other, v.found, ne);
      fresh = v.fresh;
      bound = v.bound;
      authenticated = v.authenticated;
    })

-- The cleanup ends no live session: a token that is accepted is accepted after a cleanup that
-- reads the clock at the same time.
pub validate-clean_expired_sessions :
    (a : Auth) (token ip : Bytes) (now : ℕ)
    → (validate_session a token ip now).1 ≡ true
    → (validate_session (clean_expired_sessions a now) token ip now).1 ≡ true
unfolding clean_expired_sessions
validate-clean_expired_sessions a token ip now h =
    let v = IsLive-of_valid a token ip now h in
    valid_of_IsLive (clean_expired_sessions a now) token ip now (record {
      session = v.session;
      has_token = v.has_token;
      found =
          lookup-keep (λ e. not (is_expired a now e.1)) token v.session a.sessions v.found
            (λ j. ap not (fresh-not_expired a v.session now v.fresh));
      fresh = v.fresh;
      bound = v.bound;
      authenticated = v.authenticated;
    })
