-- ===== src/Text/Trim.antt =====
-- What `trim` returns.
use mathlib.Core.List.{reverse, reverse-append, reverse-reverse, reverse-cons}
use project_tracker.Base.{
  ◌≡◌, refl, sym, ap, ◌∙◌, true, false, [], ◌∷◌, ◌++◌, append_assoc, All, All-append, Bytes,
  Bool-cases, inl, inr,
}
use project_tracker.Text.{is_space, skip_space, rtrim, trim}

abbrev pub Blank : Bytes → Type 0
Blank = All (λ c. is_space c ≡ true)

-- The text does not begin with a space.
abbrev pub StartsSolid : Bytes → Type 0
StartsSolid [] = Unit
StartsSolid (c ∷ s) = is_space c ≡ false

-- `t` is `s` with blanks cut off at both ends, and with no more to cut.
pub record TrimOf (s t : Bytes) : Type 0 where
  pub before : Bytes
  pub after : Bytes
  pub splits : s ≡ before ++ (t ++ after)
  pub before_blank : Blank before
  pub after_blank : Blank after
  pub starts : StartsSolid t
  pub ends : StartsSolid (reverse t)

record SkipOf (s t : Bytes) : Type 0 where
  before : Bytes
  splits : s ≡ before ++ t
  before_blank : Blank before
  starts : StartsSolid t

skip_space-SkipOf : (s : Bytes) → SkipOf s (skip_space s)
unfolding skip_space
skip_space-SkipOf [] = record { before = []; splits = refl; before_blank = tt; starts = tt }
skip_space-SkipOf (c ∷ s) = elim (Bool-cases (is_space c)) [
  | inl e ↦
      let r = skip_space-SkipOf s in
      rw e (record {
        before = c ∷ r.before;
        splits = ap (◌∷◌ c) r.splits;
        before_blank = (e, r.before_blank);
        starts = r.starts;
      })
  | inr e ↦ rw e (record { before = []; splits = refl; before_blank = tt; starts = e })
]

Blank-reverse : (s : Bytes) → Blank s → Blank (reverse s)
Blank-reverse [] h = tt
Blank-reverse (c ∷ s) (p, h) =
    rw (reverse-cons c s) (All-append _ (reverse s) (c ∷ []) (Blank-reverse s h) (p, tt))

-- A text that ends solid and starts with `before` keeps its end when `before` is cut off.
StartsSolid-prefix : (a b : Bytes) → StartsSolid (a ++ b) → StartsSolid a
StartsSolid-prefix [] b h = tt
StartsSolid-prefix (c ∷ a) b h = h

reverse-rtrim : (s : Bytes) → reverse (rtrim s) ≡ skip_space (reverse s)
unfolding rtrim
reverse-rtrim s = reverse-reverse (skip_space (reverse s))

rtrim-append : (s b : Bytes) → reverse s ≡ b ++ skip_space (reverse s) → s ≡ rtrim s ++ reverse b
unfolding rtrim
rtrim-append s b e =
    sym (reverse-reverse s) ∙ ap reverse e ∙ reverse-append b (skip_space (reverse s))

-- `trim` cuts off all blanks at both ends and nothing else: the text is a blank part, the result
-- and a blank part, and the result neither begins nor ends with a space.
pub trim-TrimOf : (s : Bytes) → TrimOf s (trim s)
unfolding trim
trim-TrimOf s =
    let back = skip_space-SkipOf (reverse s) in
    let front = skip_space-SkipOf (rtrim s) in
    record {
      before = front.before;
      after = reverse back.before;
      splits =
          rtrim-append s back.before back.splits
          ∙ ap (λ t. t ++ reverse back.before) front.splits
          ∙ append_assoc front.before (skip_space (rtrim s)) (reverse back.before);
      before_blank = front.before_blank;
      after_blank = Blank-reverse back.before back.before_blank;
      starts = front.starts;
      ends = StartsSolid-prefix (reverse (trim s)) (reverse front.before) (rw e at back.starts);
    }
  where
    e : skip_space (reverse s) ≡ reverse (trim s) ++ reverse (skip_space-SkipOf (rtrim s)).before
    e =
        sym (reverse-rtrim s)
        ∙ ap reverse (skip_space-SkipOf (rtrim s)).splits
        ∙ reverse-append (skip_space-SkipOf (rtrim s)).before (skip_space (rtrim s))
