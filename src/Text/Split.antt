-- ===== src/Text/Split.antt =====
-- What `split` and the loops over `std::getline` return.
use project_tracker.Base.{
  ℕ, ◌≡◌, ◌≢◌, refl, ap, ◌∙◌, List, [], ◌∷◌, ◌++◌, append_assoc, append-nil, arith, All, Bytes,
}
use project_tracker.Text.{read_tokens, split}

abbrev pub Lacks : ℕ → Bytes → Type 0
Lacks b = All (λ c. c ≢ b)

module _ (d : ℕ) where
  -- Each part behind which a delimiter stands, one after the other.
  abbrev pub lines_of : List Bytes → Bytes
  lines_of [] = []
  lines_of (p ∷ ps) = p ++ d ∷ lines_of ps

  pub read_tokens-append :
      (p rest token : Bytes)
      → Lacks d p
      → read_tokens d token (p ++ d ∷ rest) ≡ (token ++ p) ∷ read_tokens d [] rest
  unfolding read_tokens
  read_tokens-append [] rest token h = ground (arith, append-nil token)
  read_tokens-append (c ∷ p) rest token h =
      ground (arith, read_tokens-append p rest (token ++ c ∷ []), append_assoc token (c ∷ []) p)

  -- Reading lines that are each ended by the delimiter gives these lines.
  pub split-lines_of : (ps : List Bytes) → All (Lacks d) ps → split (lines_of ps) d ≡ ps
  unfolding split read_tokens
  split-lines_of [] h = refl
  split-lines_of (p ∷ ps) (hp, h) =
      read_tokens-append p (lines_of ps) [] hp ∙ ap (◌∷◌ p) (split-lines_of ps h)

  Lacks-append : (s : Bytes) (c : ℕ) → Lacks d s → c ≢ d → Lacks d (s ++ c ∷ [])
  Lacks-append [] c h n = (n, tt)
  Lacks-append (b ∷ s) c (p, h) n = (p, Lacks-append s c h n)

  pub read_tokens-Lacks : (s token : Bytes) → Lacks d token → All (Lacks d) (read_tokens d token s)
  unfolding read_tokens
  read_tokens-Lacks [] [] h = tt
  read_tokens-Lacks [] (c ∷ t) h = (h, tt)
  read_tokens-Lacks (c ∷ s) token h = ground (
    arith,
    read_tokens-Lacks s [] tt,
    read_tokens-Lacks s (token ++ c ∷ []),
    Lacks-append token c h,
  )

  -- No token holds the delimiter.
  pub split-Lacks : (s : Bytes) → All (Lacks d) (split s d)
  unfolding split
  split-Lacks s = read_tokens-Lacks s [] tt
