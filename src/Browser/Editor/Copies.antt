-- ===== src/Browser/Editor/Copies.antt =====
-- What the loop over the names of copies finds.
use project_tracker.Base.{
  ℕ, zero, suc, ◌+◌, ◌≤◌, ◌<◌, ◌≡◌, ◌⊎◌, inl, inr, refl, subst, true, false, Option, none, some,
  arith, if_cases, Bool-cases, ◌==◌, Bytes,
}
use project_tracker.Http.{Response}
use project_tracker.Browser.{api, is_missing}
use project_tracker.Browser.Editor.{free_name, try_name, or_same}

-- The server's answer to the GET of a name is an error, or there is none.
abbrev pub IsFree : (Bytes → Option Response) → Bytes → Type 0
IsFree ask name = is_missing (api (ask name)) ≡ true

module _ (print : ℕ → Bytes) (ask : Bytes → Option Response) where
  -- What the loop finds: the first free copy from `num` on, or that there is none.
  FreeFrom : Bytes → ℕ → ℕ → Option Bytes → Type 0
  FreeFrom name num rounds none =
      (k : ℕ)
      → num ≤ k
      → k < num + rounds
      → is_missing (api (ask (try_name print ask name k))) ≡ false
  FreeFrom name num rounds (some free) =
      (k : ℕ) × (num ≤ k)
      × (k < num + rounds)
      × (free ≡ try_name print ask name k)
      × IsFree ask free
      × ((j : ℕ) → num ≤ j → j < k → is_missing (api (ask (try_name print ask name j))) ≡ false)

  from_next :
      (name : Bytes) (num k : ℕ)
      → is_missing (api (ask (try_name print ask name num))) ≡ false
      → num ≤ k
      → (suc num ≤ k → is_missing (api (ask (try_name print ask name k))) ≡ false)
      → is_missing (api (ask (try_name print ask name k))) ≡ false
  from_next name num k taken h later = elim (Bool-cases (num == k)) [
    | inl e ↦
        let same : num ≡ k = ground arith in
        subst (λ n. is_missing (api (ask (try_name print ask name n))) ≡ false) same taken
    | inr e ↦ later (ground arith)
  ]

  extended :
      (name : Bytes) (num rounds : ℕ) (o : Option Bytes)
      → is_missing (api (ask (try_name print ask name num))) ≡ false
      → FreeFrom name (suc num) rounds o
      → FreeFrom name num (suc rounds) o
  unfolding FreeFrom
  extended name num rounds none taken h =
      λ k low high. from_next name num k taken low (λ l. h k l (omega arith))
  extended name num rounds (some free) taken (k, low, high, same, is_free, before) = (
    k,
    omega arith,
    omega arith,
    same,
    is_free,
    λ j l g. from_next name num j taken l (λ m. before j m g),
  )

  free_name-FreeFrom :
      (name : Bytes) (num rounds : ℕ)
      → FreeFrom name num rounds (free_name print ask name num rounds)
  unfolding FreeFrom free_name
  free_name-FreeFrom name num zero = λ k h g. absurd (omega arith)
  free_name-FreeFrom name num (suc rounds) =
      if_cases (FreeFrom name num (suc rounds))
        (is_missing (api (ask (try_name print ask name num)))) _ _
        (λ free. (num, omega arith, omega arith, refl, free, λ j h g. absurd (omega arith)))
        (λ taken. extended name num rounds _ taken (free_name-FreeFrom name (suc num) rounds))

  -- What a copy is called: the first of the names with 2 to 99 that is free, or else the name that
  -- the user has typed, which is taken.
  abbrev pub IsCopy : Bytes → Bytes → Type 0
  IsCopy name chosen =
      ((k : ℕ) × (2 ≤ k)
        × (k < 100)
        × (chosen ≡ try_name print ask name k)
        × IsFree ask chosen
        × ((j : ℕ) → 2 ≤ j → j < k → is_missing (api (ask (try_name print ask name j))) ≡ false))
      ⊎ ((chosen ≡ name)
          × ((k : ℕ)
              → 2 ≤ k
              → k < 100
              → is_missing (api (ask (try_name print ask name k))) ≡ false))

  chosen-IsCopy :
      (name : Bytes) (o : Option Bytes)
      → FreeFrom name 2 98 o
      → IsCopy name (or_same print ask o name)
  unfolding FreeFrom
  chosen-IsCopy name none h = inr (refl, λ k low high. h k low (omega arith))
  chosen-IsCopy name (some free) (k, low, high, same, is_free, before) =
      inl (k, low, omega arith, same, is_free, before)

  pub free_name-IsCopy :
      (name : Bytes) → IsCopy name (or_same print ask (free_name print ask name 2 98) name)
  free_name-IsCopy name = chosen-IsCopy name _ (free_name-FreeFrom name 2 98)
