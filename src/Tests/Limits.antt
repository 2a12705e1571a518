-- ===== src/Tests/Limits.antt =====
-- The rate limiter.
use project_tracker.Base.{
  ℕ, ◌≡◌, ◌≤◌, ◌+◌, ◌-◌, ◌*◌, ◌/◌, inr, refl, true, List, [], ◌∷◌, some, Bytes, codes, bytes_eq,
  arith,
}
use project_tracker.Base.Dict.{lookup, put, erase}
use project_tracker.Text.{trim, ltrim, rtrim, skip_space, split, read_tokens}
use project_tracker.RateLimiter.{
  ClientBucket, RateLimiter, new_limiter, second, allow_request, bucket_of, is_banned,
  refill_tokens, spend, charge, cleanup_old_clients, resolve_client_ip, first_untrusted,
}
use project_tracker.RateLimiter.Bounds.{Call, requests, run, step}
use project_tracker.RateLimiter.Budget.{Request, allowed_count}
use project_tracker.RateLimiter.Budget.Count.{allowed_count_bound}
use project_tracker.RateLimiter.Bans.{allowed_after_ban, cleanup_keeps_bans}
use project_tracker.RateLimiter.Proxies.{resolve_client_ip-leftmost}

limits : Unit {0}
unfolding trim ltrim rtrim skip_space split read_tokens lookup put erase bytes_eq allow_request
    is_banned refill_tokens spend charge cleanup_old_clients resolve_client_ip first_untrusted
    bucket_of run step allowed_count
limits = tt

abbrev ann : Bytes
ann = codes "10.0.0.1"

abbrev bob : Bytes
bob = codes "10.0.0.2"

-- The clock at `n` seconds.
abbrev at_second : ℕ → ℕ
at_second n = n * second

abbrev asks : Bytes → ℕ → Request
asks ip n = record {
  client_ip = ip;
  is_write = true;
  ban_now = at_second n;
  refill_now = at_second n;
  violation_now = at_second n;
}

-- One token, so that the second request at once is refused.
abbrev tight : RateLimiter
tight = record new_limiter { max_tokens = 1; ban_threshold = 1 }

limit_tests :
    (allowed_count ann tight (asks ann 5 ∷ asks ann 5 ∷ asks bob 5 ∷ asks ann 7 ∷ []) ≡ 1)
    × (allowed_count bob tight (asks ann 5 ∷ asks ann 5 ∷ asks bob 5 ∷ asks ann 7 ∷ []) ≡ 1)
    × (allowed_count ann
          (record tight { ban_threshold = 9 })
          (asks ann 5 ∷ asks ann 5 ∷ asks ann 7 ∷ [])
        ≡ 2)
unfolding limits
limit_tests = (refl, refl, refl)

allowed_count_bound_example :
    allowed_count ann new_limiter (asks ann 5 ∷ asks bob 6 ∷ asks ann 7 ∷ [])
    ≤ 15 + 2 * ((at_second 7 - at_second 5) / second)
unfolding limits
allowed_count_bound_example =
    allowed_count_bound ann 2 (at_second 5) (at_second 7) new_limiter
      (asks ann 5 ∷ asks bob 6 ∷ asks ann 7 ∷ []) (ground arith) refl (ground arith) (ground arith)
      refl (ground arith)

-- Ann is out of tokens and banned since second 5.
abbrev banned_ann : ClientBucket
banned_ann = record {
  tokens = 0;
  last_refill = at_second 5;
  violation_count = 1;
  last_violation = at_second 5;
}

abbrev after_ban : RateLimiter
after_ban = record tight { clients = (ann, banned_ann) ∷ [] }

allowed_after_ban_example :
    (allow_request after_ban ann true (at_second 700) (at_second 700) (at_second 700)).1 ≡ true
unfolding limits
allowed_after_ban_example =
    allowed_after_ban after_ban ann true (at_second 700) (at_second 700) (at_second 700) refl
      (ground arith) (ground arith) (ground arith) (ground arith)

abbrev two_requests : List Call
two_requests =
    requests ann true (at_second 5) (at_second 5) (at_second 5)
    ∷ requests ann true (at_second 5) (at_second 5) (at_second 5)
    ∷ []

cleanup_keeps_bans_example :
    lookup ann (cleanup_old_clients (run tight two_requests) (at_second 300)).clients
    ≡ some banned_ann
unfolding limits
cleanup_keeps_bans_example =
    cleanup_keeps_bans tight two_requests ann banned_ann 0 600 (at_second 300) refl (ground arith)
      (ground arith) refl (ground arith) refl refl

abbrev behind_proxy : RateLimiter
behind_proxy = record new_limiter { trusted_proxies = codes "127.0.0.1" ∷ [] }

resolve_client_ip-leftmost_example :
    resolve_client_ip behind_proxy (codes "127.0.0.1") (codes "127.0.0.1, 10.0.0.1 ,x")
    ≡ trim (codes " 10.0.0.1 ")
unfolding limits
resolve_client_ip-leftmost_example =
    resolve_client_ip-leftmost behind_proxy (codes "127.0.0.1") (codes "127.0.0.1, 10.0.0.1 ,x")
      (codes "127.0.0.1" ∷ []) (codes " 10.0.0.1 ") (codes "x" ∷ []) refl refl (inr refl, tt) refl
      refl
