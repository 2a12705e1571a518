-- ===== src/RateLimiter/Bounds.antt =====
-- The level of the buckets under histories of calls.
use project_tracker.Base.{
  ◌≡◌, ◌+◌, ◌++◌, ℕ, ◌≤◌, Bool, List, [], ◌∷◌, arith, All, All-keep_sub, not, Bytes, Option-cases,
  inl, inr, if_cases,
}
use project_tracker.Base.Dict.{lookup, All-put, All-erase, lookup-All}
use project_tracker.RateLimiter.{
  ClientBucket, RateLimiter, is_old, charge, bucket_of, allow_request, cleanup_old_clients,
  reset_client,
}

-- The calls that change the buckets while the server runs.
pub data Call : Type 0 where
  requests : Bytes → Bool → (ban_now refill_now violation_now : ℕ) → Call
  cleans : (now : ℕ) → Call
  resets : Bytes → Call

unfoldable pub step : RateLimiter → Call → RateLimiter
step r (requests ip is_write t u v) = (allow_request r ip is_write t u v).0
step r (cleans now) = cleanup_old_clients r now
step r (resets ip) = reset_client r ip

unfoldable pub run : RateLimiter → List Call → RateLimiter
run r [] = r
run r (c ∷ cs) = run (step r c) cs

-- How many cleanups a history has.
abbrev pub is_cleanup : Call → ℕ
is_cleanup (requests ip is_write t u v) = 0
is_cleanup (cleans now) = 1
is_cleanup (resets ip) = 0

unfoldable pub cleanups : List Call → ℕ
cleanups [] = 0
cleanups (c ∷ cs) = is_cleanup c + cleanups cs

pub cleanups-append : (cs ds : List Call) → cleanups (cs ++ ds) ≡ cleanups cs + cleanups ds
unfolding cleanups
cleanups-append [] ds = omega arith
cleanups-append (c ∷ cs) ds = omega (arith, cleanups-append cs ds)

abbrev pub IsCapped : RateLimiter → Type 0
IsCapped r = All (λ e. e.1.tokens ≤ r.max_tokens) r.clients

charge-capped :
    (r : RateLimiter) (b : ClientBucket) (w : Bool) (t u v : ℕ)
    → b.tokens ≤ r.max_tokens
    → (charge r b w t u v).0.tokens ≤ r.max_tokens
unfolding charge
charge-capped r b w t u v h = ground arith

bucket_of-capped :
    (r : RateLimiter) (ip : Bytes) → IsCapped r → (bucket_of r ip).tokens ≤ r.max_tokens
unfolding bucket_of
bucket_of-capped r ip h = elim (Option-cases (lookup ip r.clients)) [
  | inl e ↦ rw (e, bucket_of) (omega arith)
  | inr (b, e) ↦ rw (e, bucket_of) (lookup-All (λ b. b.tokens ≤ r.max_tokens) ip b r.clients e h)
]

pub allow_request-IsCapped :
    (r : RateLimiter) (ip : Bytes) (w : Bool) (t u v : ℕ)
    → IsCapped r
    → IsCapped (allow_request r ip w t u v).0
unfolding allow_request
allow_request-IsCapped r ip w t u v h =
    if_cases (λ (s : RateLimiter × Bool). IsCapped s.0) (not r.enabled) _ _ (λ _. h)
      λ _.
        All-put (λ b. b.tokens ≤ r.max_tokens) ip (charge r (bucket_of r ip) w t u v).0 r.clients
          (charge-capped r (bucket_of r ip) w t u v (bucket_of-capped r ip h)) h

pub step-IsCapped : (r : RateLimiter) (c : Call) → IsCapped r → IsCapped (step r c)
unfolding step cleanup_old_clients reset_client
step-IsCapped r (requests ip w t u v) h = allow_request-IsCapped r ip w t u v h
step-IsCapped r (cleans now) h = All-keep_sub _ (λ e. not (is_old now e)) r.clients h
step-IsCapped r (resets ip) h = All-erase (λ b. b.tokens ≤ r.max_tokens) ip r.clients h

-- Under any history of requests, cleanups and resets every bucket holds at most the burst.
pub run-IsCapped : (r : RateLimiter) (cs : List Call) → IsCapped r → IsCapped (run r cs)
unfolding run
run-IsCapped r [] h = h
run-IsCapped r (c ∷ cs) h = run-IsCapped (step r c) cs (step-IsCapped r c h)
