-- ===== src/Auth/Sessions.antt =====
-- When a session is accepted, from login to logout.
use project_tracker.Base.{
  All, Bool-cases, ℕ, ◌-◌, ◌/◌, ◌≤◌, ◌≡◌, ◌≢◌, ap, sym, subst, ◌⊎◌, ◌↔◌, refl, ◌∙◌, Bool, true,
  false, not, ◌&&◌, some, [], ◌∷◌, arith, is_empty, Bytes, bytes_eq_iff, Option-cases, inl, inr,
  if_cases, ℤ, pos, negsuc,
}
use project_tracker.Auth.Keys.{IsByte, constant_time_compare_iff}
use project_tracker.Auth.Cookie.{
  NamesToken, extract_session_token-NamesToken, NamesToken-extract_session_token,
}
use project_tracker.Base.Dict.{lookup}
use project_tracker.Auth.{
  Session, Auth, second, is_longer, is_expired, use_session, validate_session, is_authorized,
  validate_api_key, extract_session_token,
}

-- `n` seconds are within the timeout.
abbrev pub Within : ℕ → ℤ → Type 0
Within n (pos m) = n ≤ m
Within n (negsuc m) = ⊥

-- The token names a session that was used within the timeout, and by this address if sessions are
-- bound to addresses.
pub record IsLive (a : Auth) (token client_ip : Bytes) (now : ℕ) : Type 0 where
  pub session : Session
  pub has_token : is_empty token ≡ false
  pub found : lookup token a.sessions ≡ some session
  pub fresh : Within ((now - session.last_activity) / second) a.session_timeout
  pub bound : (a.bind_session_to_ip ≡ false) ⊎ (session.client_ip ≡ client_ip)
  pub authenticated : session.authenticated ≡ true

not_longer→Within : (n : ℕ) (t : ℤ) → is_longer n t ≡ false → Within n t
not_longer→Within n (pos m) h = ground arith
not_longer→Within n (negsuc m) h = cc

Within→not_longer : (n : ℕ) (t : ℤ) → Within n t → is_longer n t ≡ false
Within→not_longer n (pos m) h = ground arith
Within→not_longer n (negsuc m) h = absurd h

use_session-true :
    (a : Auth) (token : Bytes) (s : Session) (ip : Bytes) (now : ℕ)
    → (use_session a token s ip now).1 ≡ true
    → (is_expired a now s ≡ false)
      × ((a.bind_session_to_ip ≡ false) ⊎ (s.client_ip ≡ ip))
      × (s.authenticated ≡ true)
unfolding use_session
use_session-true a token s ip now h = ground (arith, bytes_eq_iff s.client_ip ip)

use_session-passes :
    (a : Auth) (token : Bytes) (s : Session) (ip : Bytes) (now : ℕ)
    → is_expired a now s ≡ false
    → (a.bind_session_to_ip ≡ false) ⊎ (s.client_ip ≡ ip)
    → (use_session a token s ip now).1 ≡ s.authenticated
unfolding use_session
use_session-passes a token s ip now e b = ground (arith, bytes_eq_iff s.client_ip ip)

pub fresh-not_expired :
    (a : Auth) (s : Session) (now : ℕ)
    → Within ((now - s.last_activity) / second) a.session_timeout
    → is_expired a now s ≡ false
unfolding is_expired
fresh-not_expired a s now h = Within→not_longer _ a.session_timeout h

pub IsLive-of_valid :
    (a : Auth) (token ip : Bytes) (now : ℕ)
    → (validate_session a token ip now).1 ≡ true
    → IsLive a token ip now
unfolding validate_session is_expired
IsLive-of_valid a [] ip now h = cc
IsLive-of_valid a (c ∷ token) ip now h = elim (Option-cases (lookup (c ∷ token) a.sessions)) [
  | inl e ↦ let no : false ≡ true = rw (e, validate_session) at h in cc
  | inr (s, e) ↦
      let (young, bound, auth) =
        use_session-true a (c ∷ token) s ip now (rw (e, validate_session) at h) in
      record {
        session = s;
        has_token = refl;
        found = e;
        fresh = not_longer→Within _ a.session_timeout young;
        bound = bound;
        authenticated = auth;
      }
]

pub valid_of_IsLive :
    (a : Auth) (token ip : Bytes) (now : ℕ)
    → IsLive a token ip now
    → (validate_session a token ip now).1 ≡ true
unfolding validate_session is_expired
valid_of_IsLive a [] ip now v = cc (v.has_token)
valid_of_IsLive a (c ∷ token) ip now v =
    rw (v.found, validate_session)
      (use_session-passes a (c ∷ token) v.session ip now
          (Within→not_longer _ a.session_timeout v.fresh) v.bound
        ∙ v.authenticated)

-- A token is accepted exactly if it names a session that was used within the timeout, by the same
-- address where sessions are bound to addresses, and that is marked authenticated.
pub validate_session_iff :
    (a : Auth) (token client_ip : Bytes) (now : ℕ)
    → ((validate_session a token client_ip now).1 ≡ true) ↔ IsLive a token client_ip now
validate_session_iff a token client_ip now =
    (IsLive-of_valid a token client_ip now, valid_of_IsLive a token client_ip now)

-- An accepted API key that is not empty, or a live session under the token that is extracted.
pub is_authorized_lem :
    (a : Auth) (api_key_header cookie_header client_ip : Bytes) (now : ℕ)
    → ((is_authorized a api_key_header cookie_header client_ip now).1 ≡ true) ↔ (
        ((is_empty api_key_header ≡ false) × (validate_api_key a api_key_header ≡ true))
        ⊎ IsLive a (extract_session_token cookie_header) client_ip now)
unfolding is_authorized
is_authorized_lem a key cookie ip now = (
  if_cases
      (λ (r : Auth × Bool).
        r.1 ≡ true
        → ((is_empty key ≡ false) × (validate_api_key a key ≡ true))
          ⊎ IsLive a (extract_session_token cookie) ip now)
      (not (is_empty key) && validate_api_key a key) _ _ (λ e _. inl (ground arith, ground arith))
      λ _.
        if_cases
          (λ (r : Auth × Bool).
            r.1 ≡ true
            → ((is_empty key ≡ false) × (validate_api_key a key ≡ true))
              ⊎ IsLive a (extract_session_token cookie) ip now)
          (is_empty (extract_session_token cookie)) _ _ (λ _ no. cc)
          (λ _ e. inr (IsLive-of_valid a (extract_session_token cookie) ip now e)),
  λ h.
      if_cases (λ (r : Auth × Bool). r.1 ≡ true) (not (is_empty key) && validate_api_key a key) _ _
        (λ _. refl)
        (λ refused. elim h [
          | inl (some_key, valid) ↦ ground arith
          | inr v ↦ rw (v.has_token) (valid_of_IsLive a (extract_session_token cookie) ip now v)
        ]),
)

-- A key that is given is accepted if authentication is off, or if it is the configured one.
validate_api_key-given :
    (a : Auth) (key : Bytes)
    → All IsByte key
    → All IsByte a.api_key
    → key ≢ []
    → (validate_api_key a key ≡ true) ↔ ((a.auth_enabled ≡ false) ⊎ (key ≡ a.api_key))
unfolding validate_api_key
validate_api_key-given a [] hk ha n = absurd (n refl)
validate_api_key-given a (c ∷ key) hk ha n =
    let same = constant_time_compare_iff (c ∷ key) a.api_key hk ha in
    (
      λ h. elim (Bool-cases a.auth_enabled) [ inl e ↦ inr (same.0 (ground arith)) | inr e ↦ inl e ],
      λ h. elim h [
        | inl e ↦ rw e refl
        | inr e ↦ elim (Bool-cases a.auth_enabled) [
          | inl on ↦ rw on (same.1 e)
          | inr off ↦ rw off refl
        ]
      ],
    )

-- Where the API key header and the configured key consist of bytes, a request is authorised exactly
-- if that header is not empty and is the configured key, or anything where authentication is off; or
-- if the cookie header names the token of a live session: the text behind the first occurrence of
-- `session=` in the header, up to the next ';' or to the end. That occurrence may also be the end of
-- the name of another cookie.
pub is_authorized_iff :
    (a : Auth) (api_key_header cookie_header client_ip : Bytes) (now : ℕ)
    → All IsByte api_key_header
    → All IsByte a.api_key
    → ((is_authorized a api_key_header cookie_header client_ip now).1 ≡ true) ↔ (
        ((api_key_header ≢ []) × ((a.auth_enabled ≡ false) ⊎ (api_key_header ≡ a.api_key)))
        ⊎ ((token : Bytes) × NamesToken cookie_header token × IsLive a token client_ip now))
is_authorized_iff a key cookie ip now hk ha = (
  λ h. elim ((is_authorized_lem a key cookie ip now).0 h) [
    | inl (given, valid) ↦
        let some_key : key ≢ [] = λ e. cc (given, ap is_empty e) in
        inl (some_key, (validate_api_key-given a key hk ha some_key).0 valid)
    | inr v ↦
        inr (extract_session_token cookie, NamesToken-extract_session_token cookie v.has_token, v)
  ],
  λ h. (is_authorized_lem a key cookie ip now).1 (elim h [
    | inl (some_key, valid) ↦
        inl (is_empty-false key some_key, (validate_api_key-given a key hk ha some_key).1 valid)
    | inr (token, n, v) ↦
        inr
          (subst (λ t. IsLive a t ip now) (sym (extract_session_token-NamesToken cookie token n)) v)
  ]),
)
  where
    is_empty-false : (s : Bytes) → s ≢ [] → is_empty s ≡ false
    is_empty-false [] n = absurd (n refl)
    is_empty-false (c ∷ s) n = refl
