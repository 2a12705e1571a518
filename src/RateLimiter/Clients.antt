-- ===== src/RateLimiter/Clients.antt =====
-- One client's bucket under the requests of all.
use project_tracker.Base.{
  ℕ, ◌≡◌, refl, Bool, true, false, none, arith, Bytes, bytes_eq, bytes_eq→eq, if_cases, not,
}
use project_tracker.Base.Dict.{lookup, lookup-put_self, lookup-put_ne}
use project_tracker.RateLimiter.{
  ClientBucket, new_bucket, RateLimiter, bucket_of, write_bucket, charge, allow_request,
  charge_cases, is_banned, spend, refill_tokens, rate_for,
}

pub bucket_of-write_self :
    (r : RateLimiter) (ip : Bytes) (b : ClientBucket) → bucket_of (write_bucket r ip b) ip ≡ b
unfolding bucket_of
bucket_of-write_self r ip b = rw (lookup-put_self ip b r.clients, bucket_of)

pub bucket_of-unknown :
    (r : RateLimiter) (ip : Bytes) → lookup ip r.clients ≡ none → bucket_of r ip ≡ new_bucket
unfolding bucket_of
bucket_of-unknown r ip e = rw (e, bucket_of)

pub bucket_of-write_eq :
    (r : RateLimiter) (ip other : Bytes) (b : ClientBucket)
    → bytes_eq other ip ≡ true
    → bucket_of (write_bucket r other b) ip ≡ b
bucket_of-write_eq r ip other b e = rw (bytes_eq→eq other ip e) (bucket_of-write_self r ip b)

pub bucket_of-write_ne :
    (r : RateLimiter) (ip other : Bytes) (b : ClientBucket)
    → bytes_eq other ip ≡ false
    → bucket_of (write_bucket r other b) ip ≡ bucket_of r ip
unfolding bucket_of
bucket_of-write_ne r ip other b e = rw (lookup-put_ne ip other b r.clients e, bucket_of)

pub allow_request_enabled :
    (r : RateLimiter) (ip : Bytes) (w : Bool) (t u v : ℕ)
    → r.enabled ≡ true
    → allow_request r ip w t u v ≡ (
      write_bucket r ip (charge r (bucket_of r ip) w t u v).0,
      (charge r (bucket_of r ip) w t u v).1,
    )
unfolding allow_request
allow_request_enabled r ip w t u v on =
    if_cases
      (λ (s : RateLimiter × Bool). s ≡ (
        write_bucket r ip (charge r (bucket_of r ip) w t u v).0,
        (charge r (bucket_of r ip) w t u v).1,
      ))
      (not r.enabled) _ _ (λ off. ground arith) (λ _. refl)

-- A request of one client leaves the bucket of every other client as it was.
pub allow_request_other :
    (r : RateLimiter) (ip other : Bytes) (w : Bool) (t u v : ℕ)
    → bytes_eq other ip ≡ false
    → bucket_of (allow_request r other w t u v).0 ip ≡ bucket_of r ip
unfolding allow_request
allow_request_other r ip other w t u v e =
    if_cases (λ (s : RateLimiter × Bool). bucket_of s.0 ip ≡ bucket_of r ip) (not r.enabled) _ _
      (λ _. refl) (λ _. bucket_of-write_ne r ip other _ e)

pub charge-banned :
    (r : RateLimiter) (b : ClientBucket) (w : Bool) (t u v : ℕ)
    → is_banned r b t ≡ true
    → charge r b w t u v ≡ (b, false)
charge-banned r b w t u v h =
    charge_cases (λ c. c ≡ (b, false)) r b w t u v (λ _. refl) (λ free. absurd_of free)
  where
    absurd_of :
        is_banned r b t ≡ false
        → spend (refill_tokens r.max_tokens b (rate_for r w) u) v ≡ (b, false)
    absurd_of free = cc
