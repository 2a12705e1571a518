-- ===== src/Logger/Renames.antt =====
-- The loop over the numbered files of the log, src/utils/logger.cpp.
use project_tracker.Base.{
  ℕ, zero, suc, ◌+◌, ◌-◌, ◌<◌, ◌≡◌, ◌≢◌, refl, ap, ap₂, ◌∙◌, true, false, Option, none, some, [],
  ◌∷◌, ◌++◌, arith, ltb, leb, ◌&&◌, if_cases, if◌then◌else◌, ◌==◌, Option-cases, Bool-cases, inl,
  inr, Bytes, bytes_eq, bytes_eq_iff, bytes_eq→eq, bytes_eq_refl,
}
use project_tracker.Base.Dict.{lookup, erase, lookup-put, lookup-erase}
use project_tracker.Logger.{Files, numbered, rename, rotate_one, rotate_files}

-- A file that is there moves, over a name that is free.
pub lookup-rename :
    (k old new : Bytes) (fs : Files)
    → bytes_eq old new ≡ false
    → lookup new fs ≡ none
    → lookup k (rename fs old new)
      ≡ (if bytes_eq new k then lookup old fs else if bytes_eq old k then none else lookup k fs)
unfolding rename
lookup-rename k old new fs n free = elim (Option-cases (lookup old fs)) [
  | inl e ↦ rw (e, rename) (ground (arith, bytes_eq_iff new k, bytes_eq_iff old k))
  | inr (text, e) ↦
      rw (e, rename)
        (lookup-put k new text (erase old fs)
          ∙ ap (λ o. if bytes_eq new k then some text else o) (lookup-erase k old fs))
]

cancel : (a x y : Bytes) → a ++ x ≡ a ++ y → x ≡ y
cancel [] x y e = e
cancel (c ∷ a) x y e = cancel a x y (cc)

not_longer : (a : Bytes) (c : ℕ) (s : Bytes) → ¬ (a ≡ a ++ c ∷ s)
not_longer [] c s e = cc
not_longer (b ∷ a) c s e = not_longer a c s (cc)

==_false : (a b : ℕ) → a < b → (a == b) ≡ false
==_false a b h = ground arith

module _ (print : ℕ → Bytes) (name : Bytes) where
  -- The numbered file `k` after the whole loop: the oldest is gone, the others have moved up.
  abbrev pub older : (n k : ℕ) → Files → Option Bytes
  older n k fs =
      if leb 1 k && ltb k n
      then if k == 1 then none else lookup (numbered print name (k - 1)) fs
      else lookup (numbered print name k) fs

  -- The numbered file `k` after a rotation.
  abbrev pub rotated : (n k : ℕ) → (current : Bytes) → Files → Option Bytes
  rotated n k current fs = if k == 1 then some current else older n k fs

module _ (print : ℕ → Bytes) (name : Bytes) (distinct : (i j : ℕ) → print i ≡ print j → i ≡ j) where
  abbrev num : ℕ → Bytes
  num i = numbered print name i

  num-ne : (i j : ℕ) → i ≢ j → bytes_eq (num i) (num j) ≡ false
  num-ne i j n = elim (Bool-cases (bytes_eq (num i) (num j))) [
    | inl e ↦
        let same = cancel name _ _ (bytes_eq→eq (num i) (num j) e) in absurd (n (distinct i j (cc)))
    | inr e ↦ e
  ]

  pub num-eq : (i j : ℕ) → bytes_eq (num i) (num j) ≡ (i == j)
  num-eq i j = elim (Bool-cases (i == j)) [
    | inl e ↦ let same : i ≡ j = ground arith in rw (e, same) (bytes_eq_refl (num j))
    | inr e ↦ rw e (num-ne i j (ground arith))
  ]

  pub name-ne : (i : ℕ) → bytes_eq name (num i) ≡ false
  name-ne i = elim (Bool-cases (bytes_eq name (num i))) [
    | inl e ↦ absurd (not_longer name b'.' (print i) (bytes_eq→eq name (num i) e))
    | inr e ↦ e
  ]

  pub ne-name : (i : ℕ) → bytes_eq (num i) name ≡ false
  ne-name i = ground (arith, name-ne i, bytes_eq_iff (num i) name, bytes_eq_iff name (num i))

  -- One move of a file whose next name is free.
  moved :
      (n i k : ℕ) (fs : Files)
      → i + 1 < n
      → lookup (num (i + 1)) fs ≡ none
      → lookup (num k) (rotate_one print name n i fs)
        ≡ (if (i + 1) == k then lookup (num i) fs else if i == k then none else lookup (num k) fs)
  unfolding rotate_one
  moved n i k fs small free =
      rw (==_false (i + 1) n (omega arith), rotate_one)
        (lookup-rename (num k) (num i) (num (i + 1)) fs (num-ne i (i + 1) (omega arith)) free
          ∙ ap₂ (λ a b. if a then lookup (num i) fs else if b then none else lookup (num k) fs)
              (num-eq (i + 1) k) (num-eq i k))

  -- The file `k` after the loop has run from `i` down: each of 1 to `i` has moved up by one.
  abbrev shifted : (i k : ℕ) → Files → Option Bytes
  shifted i k fs =
      if leb 1 k && leb k (i + 1)
      then if k == 1 then none else lookup (num (k - 1)) fs
      else lookup (num k) fs

  loop_moves :
      (n i k : ℕ) (fs : Files)
      → i + 1 < n
      → lookup (num (i + 1)) fs ≡ none
      → lookup (num k) (rotate_files print name n i fs) ≡ shifted i k fs
  unfolding rotate_files
  loop_moves n zero k fs small free = elim (Bool-cases (k == 1)) [
    | inl e ↦ let one : k ≡ 1 = ground arith in rw one free
    | inr e ↦ ground arith
  ]
  loop_moves n (suc i) k fs small free =
      let fs' = rotate_one print name n (suc i) fs in
      let gone = moved n (suc i) (i + 1) fs (omega arith) free in
      let ih = loop_moves n i k fs' (omega arith) (ground (arith, gone)) in
      ground (
        arith,
        ih,
        moved n (suc i) k fs (omega arith) free,
        moved n (suc i) (k - 1) fs (omega arith) free,
      )

  lookup-rename_other :
      (f old new : Bytes) (fs : Files)
      → bytes_eq old f ≡ false
      → bytes_eq new f ≡ false
      → lookup f (rename fs old new) ≡ lookup f fs
  unfolding rename
  lookup-rename_other f old new fs n m = elim (Option-cases (lookup old fs)) [
    | inl e ↦ rw (e, rename)
    | inr (text, e) ↦
        rw (e, rename) (ground (arith, lookup-put f new text (erase old fs), lookup-erase f old fs))
  ]

  pub loop_spares :
      (n i : ℕ) (fs : Files) → lookup name (rotate_files print name n i fs) ≡ lookup name fs
  unfolding rotate_files rotate_one
  loop_spares n zero fs = refl
  loop_spares n (suc i) fs =
      loop_spares n i (rotate_one print name n (suc i) fs)
      ∙ if_cases (λ r. lookup name r ≡ lookup name fs) ((suc i + 1) == n) _ _
          (λ _. ground (arith, lookup-erase name (num (suc i)) fs, ne-name (suc i)))
          (λ _. lookup-rename_other name _ _ fs (ne-name (suc i)) (ne-name (suc i + 1)))

  rotate_one-last :
      (m : ℕ) (fs : Files) → rotate_one print name (suc (suc m)) (suc m) fs ≡ erase (num (suc m)) fs
  unfolding rotate_one
  rotate_one-last m fs = rw (last_round m)
    where
      last_round : (k : ℕ) → ((suc k + 1) == suc (suc k)) ≡ true
      last_round k = ground arith

  pub whole_loop :
      (m k : ℕ) (fs : Files)
      → lookup (num k) (rotate_files print name (suc (suc m)) (suc m) fs)
        ≡ older print name (suc (suc m)) k fs
  unfolding rotate_files
  whole_loop m k fs =
      let fs' = erase (num (suc m)) fs in
      let free = lookup-erase (num (m + 1)) (num (suc m)) fs in
      rw (rotate_one-last m fs) (
        loop_moves (suc (suc m)) m k fs' (omega arith)
          (ground (arith, free, num-eq (suc m) (m + 1)))
        ∙ ground (
          arith,
          lookup-erase (num k) (num (suc m)) fs,
          lookup-erase (num (k - 1)) (num (suc m)) fs,
          num-eq (suc m) k,
          num-eq (suc m) (k - 1),
        ))
