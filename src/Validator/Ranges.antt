-- ===== src/Validator/Ranges.antt =====
-- The range of the numbers that `std::stoi` reads.
use project_tracker.Base.{
  ℕ, zero, suc, ◌^◌, ◌≤◌, ◌<◌, ◌≡◌, subst, Bool, true, false, Option, some, [], ◌∷◌, arith,
  if_cases, ltb, leb, ◌==◌, ℤ, pos, pos_part, neg_part, Bytes,
}
use project_tracker.Validator.{
  stoi, read_sign, read_signed, as_signed, leading_number, begins_with_digit, negated, skip_space,
}

abbrev pub InRange : ℤ → Type 0
InRange v = (pos_part v < 2 ^ 31) × (neg_part v ≤ 2 ^ 31)

abbrev pub GivesInRange : Option ℤ → Type 0
GivesInRange o = (v : ℤ) → o ≡ some v → InRange v

negated-InRange : (n : ℕ) → n ≤ 2 ^ 31 → InRange (negated n)
negated-InRange zero h = ground arith
negated-InRange (suc n) h = ground arith

some-InRange : (w : ℤ) → InRange w → GivesInRange (some w)
some-InRange w h v e = let same : w ≡ v = cc in subst InRange same h

read_signed-GivesInRange : (negative : Bool) (s : Bytes) → GivesInRange (read_signed negative s)
unfolding read_signed as_signed
read_signed-GivesInRange negative s =
    let n = leading_number 0 s in
    if_cases GivesInRange (begins_with_digit s) _ _
      (λ _.
        if_cases GivesInRange negative _ _
          (λ _.
            if_cases GivesInRange (leb n (2 ^ 31)) _ _
              (λ h. some-InRange (negated n) (negated-InRange n (ground (arith, h))))
              (λ _ v e. absurd cc))
          λ _.
            if_cases GivesInRange (ltb n (2 ^ 31)) _ _
              (λ h. some-InRange (pos n) (ground (arith, h))) (λ _ v e. absurd cc))
      (λ _ v e. absurd cc)

read_sign-GivesInRange : (s : Bytes) → GivesInRange (read_sign s)
unfolding read_sign
read_sign-GivesInRange [] = λ v e. absurd cc
read_sign-GivesInRange (c ∷ t) =
    if_cases GivesInRange (c == 45) _ _ (λ _. read_signed-GivesInRange true t)
      λ _.
        if_cases GivesInRange (c == 43) _ _ (λ _. read_signed-GivesInRange false t)
          (λ _. read_signed-GivesInRange false (c ∷ t))

pub stoi-GivesInRange : (s : Bytes) → GivesInRange (stoi s)
unfolding stoi
stoi-GivesInRange s = read_sign-GivesInRange (skip_space s)
