-- ===== src/RateLimiter/Proxies.antt =====
-- `resolveClientIp` of src/security/rate_limiter.cpp: whose address is believed.
use project_tracker.Base.{
  ◌≡◌, ◌⊎◌, refl, true, false, some, List, [], ◌∷◌, ◌++◌, arith, is_empty, Bytes, any, All,
  bytes_eq,
}
use project_tracker.Text.{trim, split}
use project_tracker.RateLimiter.{RateLimiter, is_trusted, first_untrusted, resolve_client_ip}

-- A client that connects directly cannot choose its address by a header.
pub resolve_client_ip-direct :
    (r : RateLimiter) (direct_ip forwarded_for : Bytes)
    → is_trusted r direct_ip ≡ false
    → resolve_client_ip r direct_ip forwarded_for ≡ direct_ip
unfolding resolve_client_ip
resolve_client_ip-direct r direct_ip forwarded_for h = ground arith

-- The entry of a header is passed over: it is blank, or a proxy's address.
abbrev pub IsPassedOver : RateLimiter → Bytes → Type 0
IsPassedOver r part = (is_empty (trim part) ≡ true) ⊎ (is_trusted r (trim part) ≡ true)

first_untrusted-skip :
    (r : RateLimiter) (before : List Bytes) (part : Bytes) (after : List Bytes)
    → All (IsPassedOver r) before
    → is_empty (trim part) ≡ false
    → is_trusted r (trim part) ≡ false
    → first_untrusted r (before ++ part ∷ after) ≡ some (trim part)
unfolding first_untrusted
first_untrusted-skip r [] part after h e k = ground arith
first_untrusted-skip r (p ∷ ps) part after (h, hs) e k =
    ground (arith, first_untrusted-skip r ps part after hs e k)

trusted-some :
    (r : RateLimiter) (ip : Bytes) → is_trusted r ip ≡ true → is_empty r.trusted_proxies ≡ false
trusted-some r ip h = pick r.trusted_proxies h
  where
    pick : (l : List Bytes) → any (λ proxy. bytes_eq ip proxy) l ≡ true → is_empty l ≡ false
    pick [] h = cc
    pick (x ∷ l) h = refl

split-nil-ne :
    (before : List Bytes) (part : Bytes) (after : List Bytes)
    → ¬ (split [] 44 ≡ before ++ part ∷ after)
unfolding split
split-nil-ne [] part after e = cc
split-nil-ne (p ∷ ps) part after e = cc

-- Behind a trusted proxy the client is the first entry of the header, from the left, that is
-- neither blank nor a trusted proxy itself.
pub resolve_client_ip-leftmost :
    (r : RateLimiter) (direct_ip forwarded_for : Bytes) (before : List Bytes) (part : Bytes)
    (after : List Bytes)
    → is_trusted r direct_ip ≡ true
    → split forwarded_for 44 ≡ before ++ part ∷ after
    → All (IsPassedOver r) before
    → is_empty (trim part) ≡ false
    → is_trusted r (trim part) ≡ false
    → resolve_client_ip r direct_ip forwarded_for ≡ trim part
unfolding resolve_client_ip
resolve_client_ip-leftmost r direct_ip [] before part after t s h e k =
    absurd (split-nil-ne before part after s)
resolve_client_ip-leftmost r direct_ip (c ∷ f) before part after t s h e k =
    ground (arith, trusted-some r direct_ip t, s, first_untrusted-skip r before part after h e k)
