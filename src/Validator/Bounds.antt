-- ===== src/Validator/Bounds.antt =====
-- The bounds that the checked parameters keep.
use project_tracker.Base.{
  ℕ, ◌≤◌, Option, none, some, arith, Bytes, is_empty, ℤ, ◌≤ℤ◌, if_cases, length, length-take-le,
}
use project_tracker.Validator.{stoi, clamp, safe_string_to_int, safe_param_int, safe_param_string}

clamp-within : (lo hi v : ℤ) → lo ≤ℤ hi → (lo ≤ℤ clamp lo hi v) × (clamp lo hi v ≤ℤ hi)
clamp-within lo hi v h = ground arith

of_read-within :
    (o : Option ℤ) (d lo hi : ℤ)
    → lo ≤ℤ d
    → d ≤ℤ hi
    → lo ≤ℤ hi
    → let n = elim o as (λ _. ℤ) [ none ↦ d | some v ↦ clamp lo hi v ] in (lo ≤ℤ n) × (n ≤ℤ hi)
of_read-within none d lo hi h k b = (h, k)
of_read-within (some v) d lo hi h k b = clamp-within lo hi v b

-- Whatever the query string says, the number lies between the two bounds, if the default does.
pub safe_param_int-within :
    (param : Option Bytes) (default_val min_val max_val : ℤ)
    → min_val ≤ℤ default_val
    → default_val ≤ℤ max_val
    → (min_val ≤ℤ safe_param_int param default_val min_val max_val)
      × (safe_param_int param default_val min_val max_val ≤ℤ max_val)
unfolding safe_param_int safe_string_to_int
safe_param_int-within none d lo hi h k = (h, k)
safe_param_int-within (some s) d lo hi h k =
    if_cases (λ n. (lo ≤ℤ n) × (n ≤ℤ hi)) (is_empty s) _ _ (λ _. (h, k))
      (λ _. of_read-within (stoi s) d lo hi h k (ground arith))

-- A text parameter is cut to the given length.
pub length-safe_param_string :
    (param : Option Bytes) (max_len : ℕ) → length (safe_param_string param max_len) ≤ max_len
unfolding safe_param_string
length-safe_param_string none n = omega arith
length-safe_param_string (some s) n = ground (arith, length-take-le n s)
