-- ===== src/RateLimiter/Bans.antt =====
-- Bans, and the periodic cleanup of the clients.
use native.Mathlib.Nat.{mul-le-mul}
use project_tracker.Base.{
  ℕ, ◌+◌, ◌-◌, ◌*◌, ◌/◌, ◌%◌, ◌≤◌, ◌<◌, ◌≡◌, refl, ap, Bool, true, false, some, List, [], ◌∷◌,
  arith, All, All-keep_sub, not, Bytes, Option-cases, inl, inr, if_cases, u64_mod, pos,
}
use project_tracker.Base.Dict.{lookup, All-put, All-erase, lookup-All, lookup-keep}
use project_tracker.RateLimiter.{
  ClientBucket, RateLimiter, refill_tokens, rate_for, charge, bucket_of, allow_request, spend,
  is_banned, second, charge_cases, is_old, cleanup_old_clients,
}
use project_tracker.RateLimiter.{reset_client}
use project_tracker.RateLimiter.Bounds.{Call, requests, cleans, resets, step, run}
use project_tracker.RateLimiter.Clients.{allow_request_enabled, bucket_of-write_self, charge-banned}

-- A request of a banned client is refused and leaves its bucket as it was, so that no request
-- during a ban makes the ban longer.
pub banned_refused :
    (r : RateLimiter) (ip : Bytes) (w : Bool) (t u v : ℕ)
    → r.enabled ≡ true
    → is_banned r (bucket_of r ip) t ≡ true
    → ((allow_request r ip w t u v).1 ≡ false)
      × (bucket_of (allow_request r ip w t u v).0 ip ≡ bucket_of r ip)
banned_refused r ip w t u v on banned =
    let same = charge-banned r (bucket_of r ip) w t u v banned in
    let c = charge r (bucket_of r ip) w t u v in
    rw (allow_request_enabled r ip w t u v on)
      (rw (bucket_of-write_self r ip c.0) (ap (λ s. s.1) same, ap (λ s. s.0) same))

wrap_small : (a b : ℕ) → a + b < u64_mod → (a + b % u64_mod) % u64_mod ≡ a + b
wrap_small a b h = omega arith

refill-some :
    (m : ℕ) (b : ClientBucket) (rate u : ℕ)
    → 0 < m
    → 0 < rate
    → b.last_refill + second ≤ u
    → b.tokens + (u - b.last_refill) / second * rate < u64_mod
    → 0 < (refill_tokens m b rate u).tokens
unfolding refill_tokens
refill-some m b rate u h k l s = ground (
  arith,
  wrap_small b.tokens ((u - b.last_refill) / second * rate) s,
  mul-le-mul {n₁ = 1} {m₁ = 1} {n₂ = (u - b.last_refill) / second} {m₂ = rate} (omega arith) k,
)

spend-some : (b : ClientBucket) (v : ℕ) → 0 < b.tokens → (spend b v).1 ≡ true
unfolding spend
spend-some b v h = ground arith

-- A client gets in again: once the ban is over and a second has passed since the last refill, the
-- request passes, if both rates and the burst are positive and the sum of tokens does not wrap.
pub allowed_after_ban :
    (r : RateLimiter) (ip : Bytes) (w : Bool) (t u v : ℕ)
    → is_banned r (bucket_of r ip) t ≡ false
    → 0 < r.max_tokens
    → 0 < rate_for r w
    → (bucket_of r ip).last_refill + second ≤ u
    → (bucket_of r ip).tokens + (u - (bucket_of r ip).last_refill) / second * rate_for r w < u64_mod
    → (allow_request r ip w t u v).1 ≡ true
unfolding allow_request
allowed_after_ban r ip w t u v free burst rate late small =
    if_cases (λ (s : RateLimiter × Bool). s.1 ≡ true) (not r.enabled) _ _ (λ _. refl)
      λ _.
        charge_cases (λ c. c.1 ≡ true) r (bucket_of r ip) w t u v (λ banned. cc)
          λ _.
            spend-some _ v
              (refill-some r.max_tokens (bucket_of r ip) (rate_for r w) u burst rate late small)

-- The last refusal for want of tokens is not much later than the last refill.
abbrev pub Settled : ℕ → ClientBucket → Type 0
Settled slack b = b.last_violation ≤ b.last_refill + second + slack

abbrev pub IsSettled : ℕ → RateLimiter → Type 0
IsSettled slack r = All (λ e. Settled slack e.1) r.clients

-- The clock's readings within one request are at most `slack` apart.
abbrev pub IsPrompt : ℕ → Call → Type 0
IsPrompt slack (requests ip w t u v) = v ≤ u + slack
IsPrompt slack (cleans now) = Unit
IsPrompt slack (resets ip) = Unit

charge-Settled :
    (slack : ℕ) (r : RateLimiter) (b : ClientBucket) (w : Bool) (t u v : ℕ)
    → v ≤ u + slack
    → Settled slack b
    → Settled slack (charge r b w t u v).0
unfolding charge
charge-Settled slack r b w t u v h k = ground arith

bucket_of-Settled :
    (slack : ℕ) (r : RateLimiter) (ip : Bytes) → IsSettled slack r → Settled slack (bucket_of r ip)
unfolding bucket_of
bucket_of-Settled slack r ip h = elim (Option-cases (lookup ip r.clients)) [
  | inl e ↦ rw (e, bucket_of) (omega arith)
  | inr (b, e) ↦ rw (e, bucket_of) (lookup-All (Settled slack) ip b r.clients e h)
]

step-IsSettled :
    (slack : ℕ) (r : RateLimiter) (c : Call)
    → IsPrompt slack c
    → IsSettled slack r
    → IsSettled slack (step r c)
unfolding step allow_request cleanup_old_clients reset_client
step-IsSettled slack r (requests ip w t u v) p h =
    if_cases (λ (s : RateLimiter × Bool). IsSettled slack s.0) (not r.enabled) _ _ (λ _. h)
      λ _.
        All-put (Settled slack) ip (charge r (bucket_of r ip) w t u v).0 r.clients
          (charge-Settled slack r (bucket_of r ip) w t u v p (bucket_of-Settled slack r ip h)) h
step-IsSettled slack r (cleans now) p h = All-keep_sub _ (λ e. not (is_old now e)) r.clients h
step-IsSettled slack r (resets ip) p h = All-erase (Settled slack) ip r.clients h

run-IsSettled :
    (slack : ℕ) (r : RateLimiter) (cs : List Call)
    → All (IsPrompt slack) cs
    → IsSettled slack r
    → IsSettled slack (run r cs)
unfolding run
run-IsSettled slack r [] p h = h
run-IsSettled slack r (c ∷ cs) (p, ps) h =
    run-IsSettled slack (step r c) cs ps (step-IsSettled slack r c p h)

banned-young :
    (r : RateLimiter) (b : ClientBucket) (slack d now : ℕ)
    → r.ban_duration ≡ pos d
    → d ≤ 1800
    → slack ≤ 59 * second
    → Settled slack b
    → is_banned r b now ≡ true
    → (ip : Bytes) → not (is_old now (ip, b)) ≡ true
unfolding is_banned
banned-young r b slack d now e h k s banned ip = ground arith

-- The periodic cleanup ends no ban early: after any history from an empty table in which the
-- readings of the clock within a request are less than a minute apart, the bucket of a client that
-- is banned is still there after the cleanup, if bans last at most half an hour.
pub cleanup_keeps_bans :
    (r : RateLimiter) (cs : List Call) (ip : Bytes) (b : ClientBucket) (slack d now : ℕ)
    → r.clients ≡ []
    → All (IsPrompt slack) cs
    → slack ≤ 59 * second
    → (run r cs).ban_duration ≡ pos d
    → d ≤ 1800
    → lookup ip (run r cs).clients ≡ some b
    → is_banned (run r cs) b now ≡ true
    → lookup ip (cleanup_old_clients (run r cs) now).clients ≡ some b
unfolding cleanup_old_clients
cleanup_keeps_bans r cs ip b slack d now empty prompt k e h found banned =
    let settled = run-IsSettled slack r cs prompt (rw empty tt) in
    lookup-keep _ ip b (run r cs).clients found (
      banned-young (run r cs) b slack d now e h k
        (lookup-All (Settled slack) ip b (run r cs).clients found settled) banned)
