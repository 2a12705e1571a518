-- ===== src/Patch/Lines.antt =====
-- Lines written and read back.
use project_tracker.Base.{
  ℕ, zero, suc, ◌≤◌, ◌≡◌, ◌≢◌, refl, ap, ◌∙◌, List, [], ◌∷◌, ◌++◌, append_assoc, arith, All, length,
  set, take, drop, Bytes,
}
use project_tracker.Text.{split}
use project_tracker.Text.Split.{Lacks, lines_of, split-lines_of}
use project_tracker.Patch.{join_rest, join_lines, newline}

-- The text that is saved for a list of lines.
abbrev pub file_of : List Bytes → Bytes
file_of lines = join_lines lines ++ newline ∷ []

join_rest-lines_of :
    (l : Bytes) (ls : List Bytes) → (l ++ join_rest ls) ++ 10 ∷ [] ≡ lines_of 10 (l ∷ ls)
unfolding join_rest
join_rest-lines_of l [] = append_assoc l [] (10 ∷ [])
join_rest-lines_of l (m ∷ ls) =
    append_assoc l (10 ∷ (m ++ join_rest ls)) (10 ∷ [])
    ∙ ap (λ t. l ++ 10 ∷ t) (join_rest-lines_of m ls)

file_of-lines_of : (l : Bytes) (ls : List Bytes) → file_of (l ∷ ls) ≡ lines_of 10 (l ∷ ls)
unfolding join_lines
file_of-lines_of l ls = join_rest-lines_of l ls

-- The text of a list of lines: each line with a newline behind it; and, for no lines, one newline.
abbrev pub text_of : List Bytes → Bytes
text_of [] = newline ∷ []
text_of (l ∷ ls) = lines_of newline (l ∷ ls)

pub file_of-text_of : (ls : List Bytes) → file_of ls ≡ text_of ls
unfolding join_lines
file_of-text_of [] = refl
file_of-text_of (l ∷ ls) = file_of-lines_of l ls

-- A saved file has exactly the lines that were saved, if there was one and none holds a newline.
pub split-file_of : (ls : List Bytes) → ls ≢ [] → All (Lacks 10) ls → split (file_of ls) 10 ≡ ls
split-file_of [] n h = absurd (n refl)
split-file_of (l ∷ ls) n h =
    ap (λ t. split t 10) (file_of-lines_of l ls) ∙ split-lines_of 10 (l ∷ ls) h

-- A file saved with no line is read back with one, which is empty.
pub split-file_of_nil : split (file_of []) 10 ≡ [] ∷ []
unfolding split join_lines
split-file_of_nil = refl

pub All-set :
    (P : Bytes → Type 0) (ls : List Bytes) (i : ℕ) (t : Bytes) → All P ls → P t → All P (set ls i t)
All-set P [] i t h p = tt
All-set P (l ∷ ls) zero t (q, h) p = (p, h)
All-set P (l ∷ ls) (suc i) t (q, h) p = (q, All-set P ls i t h p)

pub All-drop : (P : Bytes → Type 0) (n : ℕ) (ls : List Bytes) → All P ls → All P (drop n ls)
All-drop P zero ls h = h
All-drop P (suc n) [] h = tt
All-drop P (suc n) (l ∷ ls) (p, h) = All-drop P n ls h

pub take-drop : (n : ℕ) (ls : List Bytes) → ls ≡ take n ls ++ drop n ls
take-drop zero ls = refl
take-drop (suc n) [] = refl
take-drop (suc n) (l ∷ ls) = ap (◌∷◌ l) (take-drop n ls)

pub length-take : (n : ℕ) (ls : List Bytes) → n ≤ length ls → length (take n ls) ≡ n
length-take zero ls h = refl
length-take (suc n) [] h = absurd (omega arith)
length-take (suc n) (l ∷ ls) h = ap suc (length-take n ls (omega arith))

-- The line number i (from 0) and what stands around it.
pub record SplitsAt (ls : List Bytes) (i : ℕ) : Type 0 where
  pub line : Bytes
  pub splits : ls ≡ take i ls ++ line ∷ drop (suc i) ls
  pub sets : (t : Bytes) → set ls i t ≡ take i ls ++ t ∷ drop (suc i) ls

pub splits_at : (ls : List Bytes) (i : ℕ) → suc i ≤ length ls → SplitsAt ls i
splits_at [] i h = absurd (omega arith)
splits_at (l ∷ ls) zero h = record { line = l; splits = refl; sets = λ t. refl }
splits_at (l ∷ ls) (suc i) h =
    let s = splits_at ls i (omega arith) in
    record { line = s.line; splits = ap (◌∷◌ l) s.splits; sets = λ t. ap (◌∷◌ l) (s.sets t) }
