-- ===== src/RateLimiter/Budget.antt =====
-- How many requests of one client pass: the token bucket's promise.
pub mod Count
use Prim.Native.Nat.{min}
use native.Mathlib.Nat.{mul-le-mul_left}
use project_tracker.Base.{
  ℕ, ◌+◌, ◌-◌, ◌*◌, ◌/◌, ◌%◌, ◌≤◌, ◌<◌, ◌≡◌, Bool, true, ◌&&◌, none, List, [], ◌∷◌, arith, Bytes,
  inl, inr, if◌then◌else◌, Bool-cases, bytes_eq, bytes_eq→eq, ◌==◌, u64_mod,
}
use project_tracker.Base.Dict.{lookup}
use project_tracker.RateLimiter.Clients.{
  bucket_of-unknown, bucket_of-write_eq, bucket_of-write_ne, allow_request_enabled,
}
use project_tracker.RateLimiter.{
  ClientBucket, RateLimiter, refill_tokens, rate_for, charge, bucket_of, allow_request, spend,
  second, write_bucket, charge_cases,
}

-- A request with the readings of the clock that its handling takes.
pub record Request : Type 0 where
  pub client_ip : Bytes
  pub is_write : Bool
  pub ban_now : ℕ
  pub refill_now : ℕ
  pub violation_now : ℕ

abbrev pub answer : RateLimiter → Request → RateLimiter × Bool
answer r q = allow_request r q.client_ip q.is_write q.ban_now q.refill_now q.violation_now

-- How many of the requests of the client `ip` are allowed, when the requests come in this order.
unfoldable pub allowed_count : Bytes → RateLimiter → List Request → ℕ
allowed_count ip r [] = 0
allowed_count ip r (q ∷ qs) =
    (if bytes_eq q.client_ip ip && (answer r q).1 then 1 else 0)
    + allowed_count ip (answer r q).0 qs

-- The refills read the clock in order, from `start` to `end`.
abbrev pub InOrder : (start end : ℕ) → List Request → Type 0
InOrder start end [] = start ≤ end
InOrder start end (q ∷ qs) = (start ≤ q.refill_now) × InOrder q.refill_now end qs

-- What a bucket can still give up to the time `end`, at `rate` tokens a second.
pub credit : (max_tokens rate start end : ℕ) → ClientBucket → ℕ
credit max_tokens rate start end b =
    if b.last_refill == 0
    then max_tokens + rate * ((end - start) / second)
    else b.tokens + rate * ((end - b.last_refill) / second)

seconds_split :
    (last now end : ℕ)
    → last ≤ now
    → now ≤ end
    → (now - last) / second + (end - now) / second ≤ (end - last) / second
seconds_split last now end h k = omega arith

refill_arith :
    (x last now end rate cap : ℕ)
    → last ≤ now
    → now ≤ end
    → rate ≤ cap
    → x + (now - last) / second * rate + cap * ((end - now) / second)
      ≤ x + cap * ((end - last) / second)
refill_arith x last now end rate cap h k l = omega (
  arith,
  mul-le-mul_left ((now - last) / second) l,
  mul-le-mul_left cap (seconds_split last now end h k),
)

later_start :
    (start now end cap : ℕ)
    → start ≤ now
    → now ≤ end
    → cap * ((end - now) / second) ≤ cap * ((end - start) / second)
later_start start now end cap h k = mul-le-mul_left cap (omega arith)

wrap-le : (a b m : ℕ) → min ((a + b % u64_mod) % u64_mod) m ≤ a + b
wrap-le a b m = omega arith

-- `size_t` sums that wrap only lose tokens.
refill-credit :
    (max_tokens rate cap start end : ℕ) (b : ClientBucket) (now : ℕ)
    → 0 < start
    → start ≤ now
    → now ≤ end
    → b.last_refill ≤ now
    → rate ≤ cap
    → (credit max_tokens cap start end (refill_tokens max_tokens b rate now)
        ≤ credit max_tokens cap start end b)
      × (0 < (refill_tokens max_tokens b rate now).last_refill)
      × ((refill_tokens max_tokens b rate now).last_refill ≤ now)
unfolding credit refill_tokens
refill-credit max_tokens rate cap start end b now p h k l m = ground (
  arith,
  later_start start now end cap h k,
  refill_arith b.tokens b.last_refill now end rate cap l k m,
  wrap-le b.tokens ((now - b.last_refill) / second * rate) max_tokens,
)

abbrev pub cost : Bool → ℕ
cost allowed = if allowed then 1 else 0

spend-credit :
    (max_tokens cap start end : ℕ) (b : ClientBucket) (now : ℕ)
    → 0 < b.last_refill
    → (cost (spend b now).1 + credit max_tokens cap start end (spend b now).0
        ≤ credit max_tokens cap start end b)
      × ((spend b now).0.last_refill ≡ b.last_refill)
unfolding credit spend
spend-credit max_tokens cap start end b now p = ground arith

-- One request costs its client a token of the credit if it passes, and nothing otherwise.
pub charge-credit :
    (r : RateLimiter) (b : ClientBucket) (w : Bool) (t u v cap start end : ℕ)
    → 0 < start
    → start ≤ u
    → u ≤ end
    → b.last_refill ≤ u
    → rate_for r w ≤ cap
    → (cost (charge r b w t u v).1 + credit r.max_tokens cap start end (charge r b w t u v).0
        ≤ credit r.max_tokens cap start end b)
      × ((charge r b w t u v).0.last_refill ≤ u)
charge-credit r b w t u v cap start end p h k l m =
    let (grows, set, at) = refill-credit r.max_tokens (rate_for r w) cap start end b u p h k l m in
    let (spent, same) =
      spend-credit r.max_tokens cap start end (refill_tokens r.max_tokens b (rate_for r w) u) v
        set in
    charge_cases
      (λ c.
        (cost c.1 + credit r.max_tokens cap start end c.0 ≤ credit r.max_tokens cap start end b)
        × (c.0.last_refill ≤ u))
      r b w t u v (λ _. (omega arith, l)) λ _. (omega arith, omega arith)
