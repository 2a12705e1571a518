-- ===== src/Base/Dict.antt =====
-- A map from texts to values, as an association list: `std::unordered_map` and `std::map`, whose
-- order the program never reads.
use Prim.Native.Nat.{◌+◌, ◌≤◌}
use mathlib.Core.Path.{◌≡◌, refl, ap}
use mathlib.Core.Logic.{inl, inr}
use mathlib.Core.Bool.{Bool, true, false}
use mathlib.Core.List.{List, [], ◌∷◌}
use mathlib.Core.Option.{Option, none, some}
use native.Mathlib.Omega.{arith}
use project_tracker.Base.Tests.{if◌then◌else◌, Bool-cases}
use project_tracker.Base.Lists.{Bytes, bytes_eq, bytes_eq_iff, bytes_eq_refl, length, All, keep}

module _ {ℓ} {V : Type ℓ} where
  unfoldable pub lookup : Bytes → List (Bytes × V) → Option V
  lookup k [] = none
  lookup k ((j, v) ∷ m) = if bytes_eq j k then some v else lookup k m

  -- Assignment through `operator[]`, or `emplace` of a new key.
  unfoldable pub put : Bytes → V → List (Bytes × V) → List (Bytes × V)
  put k v [] = (k, v) ∷ []
  put k v ((j, w) ∷ m) = if bytes_eq j k then (j, v) ∷ m else (j, w) ∷ put k v m

  unfoldable pub erase : Bytes → List (Bytes × V) → List (Bytes × V)
  erase k [] = []
  erase k ((j, w) ∷ m) = if bytes_eq j k then erase k m else (j, w) ∷ erase k m

  pub lookup-put :
      (j k : Bytes) (v : V) (m : List (Bytes × V))
      → lookup j (put k v m) ≡ (if bytes_eq k j then some v else lookup j m)
  unfolding lookup put
  lookup-put j k v [] = refl
  lookup-put j k v ((i, w) ∷ m) =
      ground (arith, bytes_eq_iff k j, bytes_eq_iff i k, bytes_eq_iff i j, lookup-put j k v m)

  pub lookup-put_self : (k : Bytes) (v : V) (m : List (Bytes × V)) → lookup k (put k v m) ≡ some v
  lookup-put_self k v m = ground (arith, lookup-put k k v m, bytes_eq_refl k)

  pub lookup-put_ne :
      (j k : Bytes) (v : V) (m : List (Bytes × V))
      → bytes_eq k j ≡ false
      → lookup j (put k v m) ≡ lookup j m
  lookup-put_ne j k v m e = ground (arith, lookup-put j k v m)

  pub lookup-erase :
      (j k : Bytes) (m : List (Bytes × V))
      → lookup j (erase k m) ≡ (if bytes_eq k j then none else lookup j m)
  unfolding lookup erase
  lookup-erase j k [] = ground arith
  lookup-erase j k ((i, w) ∷ m) =
      ground (arith, bytes_eq_iff k j, bytes_eq_iff i k, bytes_eq_iff i j, lookup-erase j k m)

  pub length-put_le : (k : Bytes) (v : V) (m : List (Bytes × V)) → length (put k v m) ≤ length m + 1
  unfolding put
  length-put_le k v [] = omega arith
  length-put_le k v ((j, w) ∷ m) = ground (arith, length-put_le k v m)

  pub length-put_known :
      (k : Bytes) (v w : V) (m : List (Bytes × V))
      → lookup k m ≡ some w
      → length (put k v m) ≡ length m
  unfolding put lookup
  length-put_known k v w [] h = cc
  length-put_known k v w ((j, u) ∷ m) h = ground (arith, length-put_known k v w m)

  pub length-erase_le : (k : Bytes) (m : List (Bytes × V)) → length (erase k m) ≤ length m
  unfolding erase
  length-erase_le k [] = omega arith
  length-erase_le k ((j, w) ∷ m) = ground (arith, length-erase_le k m)

  module _ {κ} (P : V → Type κ) where
    pub All-put :
        (k : Bytes) (v : V) (m : List (Bytes × V))
        → P v
        → All (λ e. P e.1) m
        → All (λ e. P e.1) (put k v m)
    unfolding put
    All-put k v [] p h = (p, tt)
    All-put k v ((j, w) ∷ m) p (q, h) = ground (arith, All-put k v m p h)

    pub All-erase :
        (k : Bytes) (m : List (Bytes × V)) → All (λ e. P e.1) m → All (λ e. P e.1) (erase k m)
    unfolding erase
    All-erase k [] h = tt
    All-erase k ((j, w) ∷ m) (q, h) = ground (arith, All-erase k m h)

    pub lookup-All :
        (k : Bytes) (v : V) (m : List (Bytes × V)) → lookup k m ≡ some v → All (λ e. P e.1) m → P v
    unfolding lookup
    lookup-All k v [] e h = cc
    lookup-All k v ((j, w) ∷ m) e (q, h) = elim (Bool-cases (bytes_eq j k)) [
      | inl f ↦ let same : w ≡ v = ground arith in rw (← same) q
      | inr f ↦ lookup-All k v m (ground arith) h
    ]

  -- A filter that passes the value of a key does not touch its entry.
  pub lookup-keep :
      (t : Bytes × V → Bool) (k : Bytes) (v : V) (m : List (Bytes × V))
      → lookup k m ≡ some v
      → ((j : Bytes) → t (j, v) ≡ true)
      → lookup k (keep t m) ≡ some v
  unfolding lookup
  lookup-keep t k v [] h f = cc
  lookup-keep t k v ((j, w) ∷ m) h f = elim (Bool-cases (bytes_eq j k)) [
    | inl e ↦
        let same : w ≡ v = ground arith in
        let passes : t (j, w) ≡ true = rw same (f j) in rw (passes, keep) (rw e (ap some same))
    | inr e ↦ ground (arith, lookup-keep t k v m (ground arith) f)
  ]
