-- ===== src/RateLimiter.antt =====
-- src/security/rate_limiter.cpp. A time is a reading of the steady clock in nanoseconds, an
-- argument of what reads it; where an operation reads the clock more than once it has an argument
-- for each reading. `size_t` sums and products wrap.
pub mod Bounds
pub mod Budget
pub mod Bans
pub mod Clients
pub mod Proxies
use Prim.Native.Nat.{min}
use project_tracker.Base.{
  ℕ, ◌+◌, ◌-◌, ◌*◌, ◌/◌, ◌%◌, Bool, true, false, Option, none, some, List, [], ◌∷◌, ltb, leb, ◌==◌,
  ◌||◌, not, if◌then◌else◌, if_cases, ◌≡◌, is_empty, any, keep, Bytes, bytes_eq, ℤ, pos, negsuc,
  to_size, u64_mod,
}
use project_tracker.Base.Dict.{lookup, put, erase}
use project_tracker.Text.{trim, split}

pub record ClientBucket : Type 0 where
  pub tokens : ℕ
  pub last_refill : ℕ
  pub violation_count : ℕ
  pub last_violation : ℕ

abbrev pub new_bucket : ClientBucket
new_bucket = record { tokens = 0; last_refill = 0; violation_count = 0; last_violation = 0 }

pub record RateLimiter : Type 0 where
  pub clients : List (Bytes × ClientBucket)
  pub max_tokens : ℕ
  pub read_refill_rate : ℕ
  pub write_refill_rate : ℕ
  pub ban_threshold : ℕ
  pub ban_duration : ℤ
  pub enabled : Bool
  pub trusted_proxies : List Bytes

abbrev pub second : ℕ
second = 1_000_000_000

abbrev pub minute : ℕ
minute = 60_000_000_000

-- the constructor
abbrev pub new_limiter : RateLimiter
new_limiter = record {
  clients = [];
  max_tokens = 15;
  read_refill_rate = 2;
  write_refill_rate = 1;
  ban_threshold = 10;
  ban_duration = pos 600;
  enabled = true;
  trusted_proxies = [];
}

abbrev pub per_second : ℕ → ℕ
per_second rpm = if rpm / 60 == 0 then 1 else rpm / 60

unfoldable pub init :
    RateLimiter → Bool → (read_rpm write_rpm burst ban_threshold : ℕ) → ℤ → RateLimiter
init r enable read_rpm write_rpm burst ban_threshold ban_duration_sec = record r {
  enabled = enable;
  max_tokens = burst;
  read_refill_rate = per_second read_rpm;
  write_refill_rate = per_second write_rpm;
  ban_threshold = ban_threshold;
  ban_duration = ban_duration_sec;
}

abbrev pub set_trusted_proxies : RateLimiter → List Bytes → RateLimiter
set_trusted_proxies r proxies = record r { trusted_proxies = proxies }

abbrev pub set_enabled : RateLimiter → Bool → RateLimiter
set_enabled r enable = record r { enabled = enable }

unfoldable pub refill_tokens :
    (max_tokens : ℕ) → ClientBucket → (refill_rate now : ℕ) → ClientBucket
refill_tokens max_tokens bucket refill_rate now =
    if bucket.last_refill == 0
    then record bucket { last_refill = now; tokens = max_tokens }
    else let elapsed = (now - bucket.last_refill) / second in
      if ltb 0 elapsed
      then record bucket {
        tokens = min ((bucket.tokens + elapsed * refill_rate % u64_mod) % u64_mod) max_tokens;
        last_refill = now;
      }
      else bucket

-- `duration < limit` in seconds, where the limit may be negative
abbrev pub is_shorter : ℕ → ℤ → Bool
is_shorter n (pos m) = ltb n m
is_shorter n (negsuc m) = false

unfoldable pub is_banned : RateLimiter → ClientBucket → (now : ℕ) → Bool
is_banned r bucket now =
    if ltb bucket.violation_count r.ban_threshold
    then false
    else is_shorter ((now - bucket.last_violation) / second) r.ban_duration

-- `clients_[clientIp]`, which adds a new bucket under a new key
unfoldable pub bucket_of : RateLimiter → Bytes → ClientBucket
bucket_of r client_ip = elim (lookup client_ip r.clients) [
  | none ↦ new_bucket
  | some bucket ↦ bucket
]

abbrev pub write_bucket : RateLimiter → Bytes → ClientBucket → RateLimiter
write_bucket r client_ip bucket = record r { clients = put client_ip bucket r.clients }

abbrev pub rate_for : RateLimiter → Bool → ℕ
rate_for r is_write = if is_write then r.write_refill_rate else r.read_refill_rate

-- The bucket after the token check, and whether the request may pass.
unfoldable pub spend : ClientBucket → (violation_now : ℕ) → ClientBucket × Bool
spend bucket violation_now =
    if ltb 0 bucket.tokens then (record bucket { tokens = bucket.tokens - 1 }, true) else (
      record bucket {
        violation_count = (bucket.violation_count + 1) % u64_mod;
        last_violation = violation_now;
      },
      false,
    )

-- The bucket of one client under a request.
unfoldable pub charge :
    RateLimiter → ClientBucket → Bool → (ban_now refill_now violation_now : ℕ) → ClientBucket × Bool
unfolding is_banned refill_tokens spend
charge r bucket is_write ban_now refill_now violation_now =
    if is_banned r bucket ban_now
    then (bucket, false)
    else spend (refill_tokens r.max_tokens bucket (rate_for r is_write) refill_now) violation_now

unfoldable pub allow_request :
    RateLimiter → Bytes → Bool → (ban_now refill_now violation_now : ℕ) → RateLimiter × Bool
allow_request r client_ip is_write ban_now refill_now violation_now =
    if not r.enabled
    then (r, true)
    else let (bucket, allowed) =
        charge r (bucket_of r client_ip) is_write ban_now refill_now violation_now in
      (write_bucket r client_ip bucket, allowed)

abbrev pub is_trusted : RateLimiter → Bytes → Bool
is_trusted r ip = any (λ proxy. bytes_eq ip proxy) r.trusted_proxies

-- the loop over the parts of X-Forwarded-For
unfoldable pub first_untrusted : RateLimiter → List Bytes → Option Bytes
first_untrusted r [] = none
first_untrusted r (part ∷ parts) =
    let ip = trim part in
    if is_empty ip || is_trusted r ip then first_untrusted r parts else some ip

abbrev pub or_first : Option Bytes → List Bytes → Bytes → Bytes
or_first (some ip) parts direct_ip = ip
or_first none [] direct_ip = direct_ip
or_first none (part ∷ parts) direct_ip = trim part

unfoldable pub resolve_client_ip : RateLimiter → (direct_ip forwarded_for : Bytes) → Bytes
unfolding first_untrusted
resolve_client_ip r direct_ip forwarded_for =
    if is_empty forwarded_for || is_empty r.trusted_proxies
    then direct_ip
    else if not (is_trusted r direct_ip)
    then direct_ip
    else let parts = split forwarded_for b',' in or_first (first_untrusted r parts) parts direct_ip

abbrev pub is_old : ℕ → Bytes × ClientBucket → Bool
is_old now entry = ltb 30 ((now - entry.1.last_refill) / minute)

unfoldable pub cleanup_old_clients : RateLimiter → (now : ℕ) → RateLimiter
cleanup_old_clients r now = record r { clients = keep (λ entry. not (is_old now entry)) r.clients }

-- The refill happens on a copy of the bucket.
unfoldable pub get_client_tokens : RateLimiter → Bytes → (now : ℕ) → ℕ
unfolding refill_tokens
get_client_tokens r client_ip now = elim (lookup client_ip r.clients) [
  | none ↦ r.max_tokens
  | some bucket ↦ (refill_tokens r.max_tokens bucket r.read_refill_rate now).tokens
]

unfoldable pub reset_client : RateLimiter → Bytes → RateLimiter
reset_client r client_ip = record r { clients = erase client_ip r.clients }

-- To prove something of a request's charge, prove it for a banned client and for another.
pub charge_cases {ℓ} :
    (P : ClientBucket × Bool → Type ℓ) (r : RateLimiter) (b : ClientBucket) (w : Bool) (t u v : ℕ)
    → (is_banned r b t ≡ true → P (b, false))
    → (is_banned r b t ≡ false → P (spend (refill_tokens r.max_tokens b (rate_for r w) u) v))
    → P (charge r b w t u v)
unfolding charge
charge_cases P r b w t u v f g = if_cases P (is_banned r b t) _ _ f g
