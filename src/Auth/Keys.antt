-- ===== src/Auth/Keys.antt =====
-- The comparison of API keys, and the tokens of sessions.
use Prim.Native.Nat.{bit_or, bit_xor}
use project_tracker.Base.{
  ℕ, zero, suc, ◌*◌, ◌/◌, ◌%◌, ◌≤◌, ◌<◌, ◌≡◌, ◌↔◌, refl, ap, ap₂, ◌⊎◌, Bool, true, false, not, ◌&&◌,
  List, [], ◌∷◌, arith, All, all, length, is_empty, Bytes, ◌==◌, ltb,
}
use project_tracker.Auth.{
  Auth, init, compare_from, constant_time_compare, hex_digit, generate_token, validate_api_key,
}

abbrev pub IsByte : ℕ → Type 0
IsByte c = c < 256

-- The numbers below a bound, for tests of all bytes.
numbers : ℕ → List ℕ
numbers zero = []
numbers (suc n) = n ∷ numbers n

tested : (t : ℕ → Bool) (n c : ℕ) → c < n → all t (numbers n) ≡ true → t c ≡ true
unfolding numbers
tested t (suc n) c less passed = ground (arith, tested t n c)
tested t zero c less passed = absurd (omega arith)

abbrev iff_test : Bool → Bool → Bool
iff_test true b = b
iff_test false b = not b

xor_test : ℕ → ℕ → Bool
xor_test x y = ltb (bit_xor x y) 256 && iff_test (bit_xor x y == 0) (x == y)

or_test : ℕ → ℕ → Bool
or_test x y = ltb (bit_or x y) 256 && iff_test (bit_or x y == 0) ((x == 0) && (y == 0))

xor_table : all (λ x. all (xor_test x) (numbers 256)) (numbers 256) ≡ true
unfolding numbers xor_test
xor_table = refl

or_table : all (λ x. all (or_test x) (numbers 256)) (numbers 256) ≡ true
unfolding numbers or_test
or_table = refl

xor_test-true : (x y : ℕ) → x < 256 → y < 256 → xor_test x y ≡ true
xor_test-true x y h k =
    tested (xor_test x) 256 y k (tested (λ z. all (xor_test z) (numbers 256)) 256 x h xor_table)

or_test-true : (x y : ℕ) → x < 256 → y < 256 → or_test x y ≡ true
or_test-true x y h k =
    tested (or_test x) 256 y k (tested (λ z. all (or_test z) (numbers 256)) 256 x h or_table)

xor_zero_iff : (x y : ℕ) → x < 256 → y < 256 → (bit_xor x y < 256) × ((bit_xor x y ≡ 0) ↔ (x ≡ y))
unfolding xor_test
xor_zero_iff x y h k = ground (arith, xor_test-true x y h k)

or_zero_iff :
    (x y : ℕ) → x < 256 → y < 256 → (bit_or x y < 256) × ((bit_or x y ≡ 0) ↔ ((x ≡ 0) × (y ≡ 0)))
unfolding or_test
or_zero_iff x y h k = ground (arith, or_test-true x y h k)

cons_head : {x y : ℕ} {a b : Bytes} → ◌≡◌ {A = Bytes} (x ∷ a) (y ∷ b) → x ≡ y
cons_head e = cc

cons_tail : {x y : ℕ} {a b : Bytes} → ◌≡◌ {A = Bytes} (x ∷ a) (y ∷ b) → a ≡ b
cons_tail e = cc

compare_from_iff :
    (r : ℕ) (a b : Bytes)
    → r < 256
    → All IsByte a
    → All IsByte b
    → length a ≡ length b
    → (compare_from r a b ≡ 0) ↔ ((r ≡ 0) × (a ≡ b))
unfolding compare_from
compare_from_iff r [] [] h ha hb e = (λ z. (z, refl), λ z. z.0)
compare_from_iff r [] (y ∷ b) h ha hb e = absurd (omega arith)
compare_from_iff r (x ∷ a) [] h ha hb e = absurd (omega arith)
compare_from_iff r (x ∷ a) (y ∷ b) h (hx, ha) (hy, hb) e =
    let (small, same) = xor_zero_iff x y hx hy in
    let (bound, both) = or_zero_iff r (bit_xor x y) h small in
    let rest = compare_from_iff (bit_or r (bit_xor x y)) a b bound ha hb (omega arith) in
    (
      λ z.
          let (zero_or, tails) = rest.0 z in
          let (zero_r, zero_x) = both.0 zero_or in (zero_r, ap₂ ◌∷◌ (same.0 zero_x) tails),
      λ (zero_r, eq). rest.1 (both.1 (zero_r, same.1 (cons_head eq)), cons_tail eq),
    )

-- The comparison that looks at every byte decides equality, for texts of bytes.
pub constant_time_compare_iff :
    (a b : Bytes) → All IsByte a → All IsByte b → (constant_time_compare a b ≡ true) ↔ (a ≡ b)
unfolding constant_time_compare
constant_time_compare_iff a b ha hb = (
  λ h.
      let same : length a ≡ length b = ground arith in
      ((compare_from_iff 0 a b (omega arith) ha hb same).0 (ground arith)).1,
  λ e.
      let same : length a ≡ length b = ap length e in
      let zero = (compare_from_iff 0 a b (omega arith) ha hb same).1 (refl, e) in ground arith,
)

-- With a key configured, exactly that key is accepted, where both are texts of bytes.
pub validate_api_key_iff :
    (a : Auth) (key provided : Bytes)
    → is_empty key ≡ false
    → All IsByte key
    → All IsByte provided
    → (validate_api_key (init a key) provided ≡ true) ↔ (provided ≡ key)
unfolding validate_api_key init
validate_api_key_iff a key [] h hk hp = (λ e. ground arith, λ e. cc)
validate_api_key_iff a key (c ∷ provided) h hk hp =
    let decided = constant_time_compare_iff (c ∷ provided) key hp hk in
    (λ e. decided.0 (ground arith), λ e. ground (arith, decided.1 e))

hex_digit_injective : (d e : ℕ) → d < 16 → e < 16 → hex_digit d ≡ hex_digit e → d ≡ e
hex_digit_injective d e h k p = ground arith

-- Different random bytes give different tokens.
pub generate_token_injective :
    (a b : Bytes) → All IsByte a → All IsByte b → generate_token a ≡ generate_token b → a ≡ b
unfolding generate_token
generate_token_injective [] [] ha hb e = refl
generate_token_injective [] (y ∷ b) ha hb e = cc
generate_token_injective (x ∷ a) [] ha hb e = cc
generate_token_injective (x ∷ a) (y ∷ b) (hx, ha) (hy, hb) e =
    let high : x / 16 ≡ y / 16 =
      hex_digit_injective (x / 16) (y / 16) (omega arith) (omega arith) (cons_head e) in
    let low : x % 16 ≡ y % 16 =
      hex_digit_injective (x % 16) (y % 16) (omega arith) (omega arith) (cons_head (cons_tail e)) in
    let same : x ≡ y = omega arith in
    ap₂ ◌∷◌ same (generate_token_injective a b ha hb (cons_tail (cons_tail e)))

-- A lower-case hexadecimal digit.
abbrev pub HexDigit : ℕ → Type 0
HexDigit c = ((48 ≤ c) × (c ≤ 57)) ⊎ ((97 ≤ c) × (c ≤ 102))

hex_digit-HexDigit : (d : ℕ) → d < 16 → HexDigit (hex_digit d)
hex_digit-HexDigit d h = ground arith

pub generate_token-HexDigit : (a : Bytes) → All IsByte a → All HexDigit (generate_token a)
unfolding generate_token
generate_token-HexDigit [] h = tt
generate_token-HexDigit (x ∷ a) (p, h) = (
  hex_digit-HexDigit (x / 16) (omega arith),
  (hex_digit-HexDigit (x % 16) (omega arith), generate_token-HexDigit a h),
)

pub length-generate_token : (a : Bytes) → length (generate_token a) ≡ 2 * length a
unfolding generate_token
length-generate_token [] = refl
length-generate_token (x ∷ a) = omega (arith, length-generate_token a)
