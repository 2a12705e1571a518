-- ===== src/Text/Find.antt =====
-- What `starts_with`, `ends_with` and `find` decide.
use project_tracker.Base.{
  ℕ, zero, suc, ◌+◌, ◌-◌, ◌<◌, ◌≡◌, refl, ap, ◌∙◌, true, false, [], ◌∷◌, ◌++◌, arith, Bytes,
  Bool-cases, Option-cases, inl, inr, ◌⊎◌, ltb, length, length-append, take, drop, none, some,
  bytes_eq→eq, bytes_eq_refl,
}
use project_tracker.Text.{starts_with, ends_with, find_from, find, contains, found_at_start}

take-append-drop : (n : ℕ) (s : Bytes) → s ≡ take n s ++ drop n s
take-append-drop zero s = refl
take-append-drop (suc n) [] = refl
take-append-drop (suc n) (c ∷ s) = ap (◌∷◌ c) (take-append-drop n s)

pub take-append_self : (p s : Bytes) → take (length p) (p ++ s) ≡ p
take-append_self [] s = refl
take-append_self (c ∷ p) s = ap (◌∷◌ c) (take-append_self p s)

pub drop-append_self : (p s : Bytes) → drop (length p) (p ++ s) ≡ s
drop-append_self [] s = refl
drop-append_self (c ∷ p) s = drop-append_self p s

pub starts_with→append : (s p : Bytes) → starts_with s p ≡ true → s ≡ p ++ drop (length p) s
unfolding starts_with
starts_with→append s p h =
    take-append-drop (length p) s
    ∙ ap (λ t. t ++ drop (length p) s) (bytes_eq→eq _ p (ground arith))

pub append→starts_with : (p s : Bytes) → starts_with (p ++ s) p ≡ true
unfolding starts_with
append→starts_with p s = ground (arith, length-append p s, take-append_self p s, bytes_eq_refl p)

pub starts_with_of_eq : (s p b : Bytes) → s ≡ p ++ b → starts_with s p ≡ true
starts_with_of_eq s p b e = rw e (append→starts_with p b)

pub ends_with→append : (s p : Bytes) → ends_with s p ≡ true → s ≡ take (length s - length p) s ++ p
unfolding ends_with
ends_with→append s p h =
    take-append-drop (length s - length p) s
    ∙ ap (◌++◌ (take (length s - length p) s)) (bytes_eq→eq _ p (ground arith))

length_zero : (s : Bytes) → length s ≡ 0 → s ≡ []
length_zero [] h = refl
length_zero (c ∷ s) h = absurd (omega arith)

-- The first occurrence of `p` in `s` is behind `before`.
pub record FirstAt (s p before : Bytes) : Type 0 where
  pub after : Bytes
  pub splits : s ≡ before ++ (p ++ after)
  pub none_earlier : (k : ℕ) → k < length before → starts_with (drop k s) p ≡ false

FirstAt-cons :
    (c : ℕ) {s p before : Bytes}
    → starts_with (c ∷ s) p ≡ false
    → FirstAt s p before
    → FirstAt (c ∷ s) p (c ∷ before)
FirstAt-cons c {s} {p} {before} e f = record {
  after = f.after;
  splits = ap (◌∷◌ c) f.splits;
  none_earlier = earlier;
}
  where
    earlier : (k : ℕ) → k < length (c ∷ before) → starts_with (drop k (c ∷ s)) p ≡ false
    earlier zero h = e
    earlier (suc k) h = f.none_earlier k (omega arith)

FirstAt-nil : (s p : Bytes) → starts_with s p ≡ true → FirstAt s p []
FirstAt-nil s p h = record {
  after = drop (length p) s;
  splits = starts_with→append s p h;
  none_earlier = λ k h. absurd (omega arith);
}

-- A position that the search gives is that of the first occurrence.
pub find_from-FirstAt :
    (s p : Bytes) (i j : ℕ)
    → find_from s p i ≡ some j
    → (before : Bytes) × FirstAt s p before × (j ≡ i + length before)
unfolding find_from
find_from-FirstAt [] [] i j h = ([], FirstAt-nil [] [] (append→starts_with [] []), ground arith)
find_from-FirstAt [] (d ∷ p) i j h = cc
find_from-FirstAt (c ∷ s) p i j h = elim (Bool-cases (starts_with (c ∷ s) p)) [
  | inl e ↦ ([], FirstAt-nil (c ∷ s) p e, ground arith)
  | inr e ↦
      let (before, f, at) = find_from-FirstAt s p (suc i) j (ground arith) in
      (c ∷ before, FirstAt-cons c e f, omega arith)
]

-- A search that gives no position: `p` stands nowhere.
pub find_from-none :
    (s p : Bytes) (i : ℕ) → find_from s p i ≡ none → (a b : Bytes) → ¬ (s ≡ a ++ (p ++ b))
unfolding find_from
find_from-none [] [] i h a b e = cc
find_from-none [] (d ∷ p) i h [] b e = cc
find_from-none [] (d ∷ p) i h (x ∷ a) b e = cc
find_from-none (c ∷ s) p i h [] b e =
    let found : starts_with (c ∷ s) p ≡ true = starts_with_of_eq (c ∷ s) p b e in ground arith
find_from-none (c ∷ s) p i h (x ∷ a) b e = elim (Bool-cases (starts_with (c ∷ s) p)) [
  | inl f ↦ ground arith
  | inr f ↦ find_from-none s p (suc i) (ground arith) a b (cc)
]

pub find-FirstAt :
    (s p : Bytes) (j : ℕ)
    → find s p ≡ some j
    → (before : Bytes) × FirstAt s p before × (j ≡ length before)
unfolding find
find-FirstAt s p j h = let (before, f, at) = find_from-FirstAt s p 0 j h in (before, f, omega arith)

starts_behind :
    {s p before : Bytes} → FirstAt s p before → starts_with (drop (length before) s) p ≡ true
starts_behind {s} {p} {before} f = rw f.splits (
    ap (λ t. starts_with t p) (drop-append_self before (p ++ f.after))
    ∙ append→starts_with p f.after)

FirstAt-unique : (s p a b : Bytes) → FirstAt s p a → FirstAt s p b → length a ≡ length b
FirstAt-unique s p a b f g = elim (order-cases (length a) (length b)) [
  | inl h ↦ absurd cc (starts_behind f, g.none_earlier (length a) h)
  | inr (inl h) ↦ absurd cc (starts_behind g, f.none_earlier (length b) h)
  | inr (inr h) ↦ h
]
  where
    order-cases : (m n : ℕ) → (m < n) ⊎ (n < m) ⊎ (m ≡ n)
    order-cases m n = elim (Bool-cases (ltb m n)) [
      | inl e ↦ inl (ground arith)
      | inr e ↦ elim (Bool-cases (ltb n m)) [
        | inl k ↦ inr (inl (ground arith))
        | inr k ↦ inr (inr (ground arith))
      ]
    ]

pub find-none : (s p : Bytes) → find s p ≡ none → (a b : Bytes) → ¬ (s ≡ a ++ (p ++ b))
unfolding find
find-none s p h = find_from-none s p 0 h

pub contains-false : (s p : Bytes) → contains s p ≡ false → (a b : Bytes) → ¬ (s ≡ a ++ (p ++ b))
unfolding contains
contains-false s p h a b e = find_from-none s p 0 (ground arith) a b e

-- Some text before and some after `p` make `s`.
abbrev pub IsPart : Bytes → Bytes → Type 0
IsPart p s = (a : Bytes) × (b : Bytes) × (s ≡ a ++ (p ++ b))

abbrev pub Begins : Bytes → Bytes → Type 0
Begins s p = (rest : Bytes) × (s ≡ p ++ rest)

pub contains→IsPart : (s p : Bytes) → contains s p ≡ true → IsPart p s
unfolding contains
contains→IsPart s p h = elim (Option-cases (find s p)) [
  | inl e ↦ absurd (ground arith)
  | inr (j, e) ↦ let (before, f, at) = find-FirstAt s p j e in (before, f.after, f.splits)
]

pub contains_of_part : (s p : Bytes) → IsPart p s → contains s p ≡ true
contains_of_part s p (a, b, e) = elim (Bool-cases (contains s p)) [
  | inl h ↦ h
  | inr h ↦ absurd (contains-false s p h a b e)
]

pub found_at_start→Begins : (s p : Bytes) → found_at_start s p ≡ true → Begins s p
unfolding found_at_start
found_at_start→Begins s p h = elim (Option-cases (find s p)) [
  | inl e ↦ absurd (ground arith)
  | inr (j, e) ↦
      let (before, f, at) = find-FirstAt s p j e in
      let none_before : before ≡ [] = length_zero before (ground arith) in
      (f.after, f.splits ∙ ap (λ (b : Bytes). b ++ (p ++ f.after)) none_before)
]

pub find_from_start : (s p : Bytes) (i : ℕ) → starts_with s p ≡ true → find_from s p i ≡ some i
unfolding find_from starts_with
find_from_start [] [] i h = refl
find_from_start [] (c ∷ p) i h = absurd (ground arith)
find_from_start (c ∷ s) p i h = ground arith

pub found_at_start_of_Begins : (s p : Bytes) → Begins s p → found_at_start s p ≡ true
unfolding found_at_start find
found_at_start_of_Begins s p (rest, e) =
    ground (arith, find_from_start s p 0 (starts_with_of_eq s p rest e))

-- The search gives the position of the first occurrence.
pub find_at-FirstAt : (s p before : Bytes) → FirstAt s p before → find s p ≡ some (length before)
find_at-FirstAt s p before f = elim (Option-cases (find s p)) [
  | inl e ↦ absurd (find-none s p e before f.after f.splits)
  | inr (j, e) ↦
      let (b, g, here) = find-FirstAt s p j e in
      e ∙ ap some (here ∙ FirstAt-unique s p b before g f)
]
