-- ===== src/App/Keys.antt =====
-- Which settings the server reads.
use project_tracker.Base.{
  ap, Option-cases, inl, inr, ◌≡◌, refl, sym, ◌∙◌, Bool, false, Option, none, some, List, [], ◌∷◌,
  arith, All, ℤ, Bytes, codes, bytes_eq,
}
use project_tracker.Base.Dict.{lookup, put, lookup-put_self, lookup-put_ne}
use project_tracker.Config.{
  Config, get, get_int, get_bool, has_key, has_section, section_of, value_at, set_env, is_some,
  is_one_of, is_some,
}
use project_tracker.App.{
  settings_of, log_level_of, auth_of, limiter_of, middleware_of, extensions_of,
}

-- The keys that `main` asks for.
abbrev pub keys : List Bytes
keys =
    codes "LOG_LEVEL"
    ∷ codes "SESSION_MAX"
    ∷ codes "SESSION_TIMEOUT"
    ∷ codes "BIND_SESSION_TO_IP"
    ∷ codes "RATE_LIMIT_ENABLED"
    ∷ codes "READ_RPM"
    ∷ codes "WRITE_RPM"
    ∷ codes "BURST_SIZE"
    ∷ codes "BAN_THRESHOLD"
    ∷ codes "BAN_DURATION"
    ∷ codes "TRUSTED_PROXIES"
    ∷ codes "ALLOWED_EXTENSIONS"
    ∷ codes "MAX_BODY_SIZE"
    ∷ codes "CORS_ORIGINS"
    ∷ codes "DB_PATH"
    ∷ codes "PORT"
    ∷ []

abbrev env : Bytes
env = codes "env"

-- The one setting reads alike in both.
record Agrees (c d : Config) (key : Bytes) : Type 0 where
  has : has_key c env key ≡ has_key d env key
  val : value_at c env key ≡ value_at d env key

module _ {c d : Config} {key : Bytes} (h : Agrees c d key) where
  get-Agrees : (fallback : Bytes) → get c env key fallback ≡ get d env key fallback
  unfolding get
  get-Agrees fallback = rw (h.has, h.val) refl

  get_int-Agrees : (fallback : ℤ) → get_int c env key fallback ≡ get_int d env key fallback
  unfolding get_int
  get_int-Agrees fallback = rw (h.has, h.val) refl

  get_bool-Agrees : (fallback : Bool) → get_bool c env key fallback ≡ get_bool d env key fallback
  unfolding get_bool
  get_bool-Agrees fallback = rw (h.has, h.val) refl

settings_of-Agrees :
    (c d : Config) (api_key : Option Bytes)
    → All (Agrees c d) keys
    → settings_of c api_key ≡ settings_of d api_key
unfolding settings_of log_level_of auth_of limiter_of middleware_of extensions_of
settings_of-Agrees c d api_key
      (
        level,
        (
          max,
          (
            timeout,
            (
              bind,
              (
                enabled,
                (
                  read,
                  (
                    write,
                    (
                      burst,
                      (
                        threshold,
                        (duration, (proxies, (extensions, (size, (origins, (path, (port, _))))))),
                      ),
                    ),
                  ),
                ),
              ),
            ),
          ),
        ),
      ) =
    simp (
      get-Agrees level _,
      get_int-Agrees max _,
      get_int-Agrees timeout _,
      get_bool-Agrees bind _,
      get_bool-Agrees enabled _,
      get_int-Agrees read _,
      get_int-Agrees write _,
      get_int-Agrees burst _,
      get_int-Agrees threshold _,
      get_int-Agrees duration _,
      get-Agrees proxies _,
      get-Agrees extensions _,
      get_int-Agrees size _,
      get-Agrees origins _,
      get-Agrees path _,
      get_int-Agrees port _,
    )

section_of-set_env :
    (c : Config) (key val : Bytes)
    → section_of (set_env c key val) env ≡ put key val (section_of c env)
unfolding set_env section_of
section_of-set_env c key val =
    rw (lookup-put_self env (put key val (section_of c env)) c.sections) refl

lookup-set_env :
    (c : Config) (key val other : Bytes)
    → bytes_eq key other ≡ false
    → lookup other (section_of (set_env c key val) env) ≡ lookup other (section_of c env)
lookup-set_env c key val other differs =
    rw (section_of-set_env c key val) (lookup-put_ne other key val (section_of c env) differs)

has_key-lookup :
    (c : Config) (section key : Bytes)
    → has_key c section key ≡ is_some (lookup key (section_of c section))
unfolding has_key has_section section_of lookup
has_key-lookup c section key = elim (Option-cases (lookup section c.sections)) [
  | inl e ↦ rw e refl
  | inr (m, e) ↦ rw e refl
]

-- Another key than the one that is set reads as before.
set_env-Agrees :
    (c : Config) (key val other : Bytes)
    → bytes_eq key other ≡ false
    → Agrees (set_env c key val) c other
unfolding value_at
set_env-Agrees c key val other differs =
    let kept = lookup-set_env c key val other differs in
    record {
      has =
          has_key-lookup (set_env c key val) env other
          ∙ (ap is_some kept ∙ sym (has_key-lookup c env other));
      val = ap (λ o. elim o as (λ _. Bytes) [ none ↦ [] | some v ↦ v ]) kept;
    }

All-keys :
    (c : Config) (key val : Bytes) (others : List Bytes)
    → is_one_of key others ≡ false
    → All (Agrees (set_env c key val) c) others
All-keys c key val [] h = tt
All-keys c key val (other ∷ others) h =
    (set_env-Agrees c key val other (ground arith), All-keys c key val others (ground arith))

-- A setting under a key that is not one of the sixteen that `main` asks for changes nothing.
pub settings_of-set_env :
    (c : Config) (key val : Bytes) (api_key : Option Bytes)
    → is_one_of key keys ≡ false
    → settings_of (set_env c key val) api_key ≡ settings_of c api_key
settings_of-set_env c key val api_key h =
    settings_of-Agrees (set_env c key val) c api_key (All-keys c key val keys h)
