-- ===== src/RateLimiter/Budget/Count.antt =====
-- The count of the requests of one client that pass.
use project_tracker.Base.{
  ℕ, ◌+◌, ◌-◌, ◌*◌, ◌/◌, ◌≤◌, ◌<◌, ◌≡◌, Bool, true, ◌&&◌, none, List, [], ◌∷◌, arith, Bytes, inl,
  inr, Bool-cases, bytes_eq, bytes_eq→eq,
}
use project_tracker.Base.Dict.{lookup}
use project_tracker.RateLimiter.Clients.{
  bucket_of-unknown, bucket_of-write_eq, bucket_of-write_ne, allow_request_enabled,
}
use project_tracker.RateLimiter.{
  ClientBucket, RateLimiter, rate_for, charge, bucket_of, second, write_bucket,
}
use project_tracker.RateLimiter.Budget.{
  Request, answer, allowed_count, InOrder, credit, cost, charge-credit,
}

module _ (ip : Bytes) (cap start end : ℕ) (p : 0 < start) where
  abbrev client_credit : RateLimiter → ℕ
  client_credit r = credit r.max_tokens cap start end (bucket_of r ip)

  abbrev Rates : RateLimiter → Type 0
  Rates r = (r.read_refill_rate ≤ cap) × (r.write_refill_rate ≤ cap) × (r.enabled ≡ true)

  write-credit :
      (r : RateLimiter) (who : Bytes) (c : ClientBucket × Bool) (u : ℕ)
      → (bytes_eq who ip ≡ true
          → (cost c.1 + credit r.max_tokens cap start end c.0 ≤ client_credit r)
            × (c.0.last_refill ≤ u))
      → (bucket_of r ip).last_refill ≤ u
      → (cost (bytes_eq who ip && c.1) + client_credit (write_bucket r who c.0) ≤ client_credit r)
        × ((bucket_of (write_bucket r who c.0) ip).last_refill ≤ u)
  write-credit r who c u paid before = elim (Bool-cases (bytes_eq who ip)) [
    | inl same ↦ rw (same, bucket_of-write_eq r ip who c.0 same) (paid same)
    | inr other ↦ rw (other, bucket_of-write_ne r ip who c.0 other) (omega arith, before)
  ]

  rate_for-le : (r : RateLimiter) (w : Bool) → Rates r → rate_for r w ≤ cap
  rate_for-le r w rates = ground arith

  answer-credit :
      (r : RateLimiter) (q : Request)
      → Rates r
      → start ≤ q.refill_now
      → q.refill_now ≤ end
      → (bucket_of r ip).last_refill ≤ q.refill_now
      → (cost (bytes_eq q.client_ip ip && (answer r q).1) + client_credit (answer r q).0
          ≤ client_credit r)
        × ((bucket_of (answer r q).0 ip).last_refill ≤ q.refill_now)
        × Rates (answer r q).0
  answer-credit r q rates h k l =
      rw
        (allow_request_enabled r q.client_ip q.is_write q.ban_now q.refill_now q.violation_now
          rates.2)
        (written.0, written.1, rates)
    where
      written :
          (cost (
                bytes_eq q.client_ip ip
                && (charge r
                    (bucket_of r q.client_ip)
                    q.is_write
                    q.ban_now
                    q.refill_now
                    q.violation_now).1)
              + client_credit (
                  write_bucket r q.client_ip
                    (charge r
                      (bucket_of r q.client_ip)
                      q.is_write
                      q.ban_now
                      q.refill_now
                      q.violation_now).0)
            ≤ client_credit r)
          × ((bucket_of
                (write_bucket r q.client_ip
                  (charge r
                    (bucket_of r q.client_ip)
                    q.is_write
                    q.ban_now
                    q.refill_now
                    q.violation_now).0)
                ip).last_refill
              ≤ q.refill_now)
      written =
          write-credit r q.client_ip
            (charge r (bucket_of r q.client_ip) q.is_write q.ban_now q.refill_now q.violation_now)
            q.refill_now
            (λ same. rw (bytes_eq→eq q.client_ip ip same) (
              charge-credit r (bucket_of r ip) q.is_write q.ban_now q.refill_now q.violation_now cap
                start end p h k l (rate_for-le r q.is_write rates)))
            l

InOrder-le : (start end : ℕ) (qs : List Request) → InOrder start end qs → start ≤ end
InOrder-le start end [] h = h
InOrder-le start end (q ∷ qs) (h, k) = omega (arith, InOrder-le q.refill_now end qs k)

module _ (ip : Bytes) (cap start end : ℕ) (p : 0 < start) where
  allowed_count-credit :
      (r : RateLimiter) (now : ℕ) (qs : List Request)
      → Rates ip cap start end p r
      → start ≤ now
      → (bucket_of r ip).last_refill ≤ now
      → InOrder now end qs
      → allowed_count ip r qs ≤ client_credit ip cap start end p r
  unfolding allowed_count
  allowed_count-credit r now [] rates h l k = omega arith
  allowed_count-credit r now (q ∷ qs) rates h l (k, ks) =
      let (paid, last, rates') =
        answer-credit ip cap start end p r q rates (omega arith) (InOrder-le q.refill_now end qs ks)
          (omega arith) in
      let rest = allowed_count-credit (answer r q).0 q.refill_now qs rates' (omega arith) last ks in
      omega arith

-- The promise of the token bucket: of the requests of a client that the limiter does not know yet,
-- mixed in any way with those of others, at most the burst passes, plus `cap` for each whole second
-- from `start` to `end`, where `cap` is at least both refill rates, the limiter is enabled and the
-- clock is past 0 and does not go back.
pub allowed_count_bound :
    (ip : Bytes) (cap start end : ℕ) (r : RateLimiter) (qs : List Request)
    → 0 < start
    → r.enabled ≡ true
    → r.read_refill_rate ≤ cap
    → r.write_refill_rate ≤ cap
    → lookup ip r.clients ≡ none
    → InOrder start end qs
    → allowed_count ip r qs ≤ r.max_tokens + cap * ((end - start) / second)
unfolding credit
allowed_count_bound ip cap start end r qs p on read write unknown order =
    let fresh = bucket_of-unknown r ip unknown in
    let bound : allowed_count ip r qs ≤ client_credit ip cap start end p r =
      allowed_count-credit ip cap start end p r start qs (read, write, on) (omega arith)
        (rw fresh (omega arith)) order in
    rw fresh at bound
