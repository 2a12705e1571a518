-- ===== src/Routes/Ranges.antt =====
-- The lines of a file that a GET with `from` or `to` answers, src/routes/files.cpp.
use project_tracker.Base.{
  ℕ, zero, suc, ◌+◌, ◌-◌, ◌≤◌, ◌≡◌, ◌≢◌, refl, ◌∙◌, ap, true, ◌||◌, Option, List, [], ◌∷◌, ◌++◌,
  arith, length, take, drop, length-append, All-take, Bytes, codes, ℤ, pos, negsuc, ◌≤ℤ◌, All,
}
use project_tracker.Text.{split, read_tokens}
use project_tracker.Text.Split.{Lacks, lines_of, split-lines_of, split-Lacks}
use project_tracker.Patch.Lines.{take-drop, length-take, All-drop}
use project_tracker.Validator.{safe_param_int}
use project_tracker.Validator.Bounds.{safe_param_int-within}
use project_tracker.Http.{Request, add_header}
use project_tracker.Routes.FileRoutes.{
  ended_lines, line_range, range_answer, file_answer, is_given, plain_text,
}

ended_lines-lines_of : (ls : List Bytes) → ended_lines ls ≡ lines_of 10 ls
unfolding ended_lines
ended_lines-lines_of [] = refl
ended_lines-lines_of (l ∷ ls) = ap (λ t. l ++ 10 ∷ t) (ended_lines-lines_of ls)

-- A list in three parts: what is skipped, what is taken and the rest.
three_parts :
    (m n : ℕ) (ls : List Bytes) → ls ≡ take m ls ++ (take n (drop m ls) ++ drop n (drop m ls))
three_parts m n ls = take-drop m ls ∙ ap (◌++◌ (take m ls)) (take-drop n (drop m ls))

length-drop : (m : ℕ) (ls : List Bytes) → length (drop m ls) ≡ length ls - m
length-drop zero ls = omega arith
length-drop (suc m) [] = omega arith
length-drop (suc m) (l ∷ ls) = omega (arith, length-drop m ls)

-- A file that has a byte has a line.
read_tokens-some :
    (t : Bytes) (s : Bytes) → 1 ≤ length t + length s → 1 ≤ length (read_tokens 10 t s)
unfolding read_tokens
read_tokens-some [] [] h = absurd (omega arith)
read_tokens-some (b ∷ t) [] h = omega arith
read_tokens-some t (c ∷ s) h =
    ground (arith, read_tokens-some (t ++ c ∷ []) s, length-append t (c ∷ []))

split-some : (s : Bytes) → s ≢ [] → 1 ≤ length (split s 10)
unfolding split
split-some [] n = absurd (n refl)
split-some (c ∷ s) n = read_tokens-some [] (c ∷ s) (omega arith)

-- The lines number `from` to `to`, counted from 1, of a text of these lines.
pub record IsRange (lines : List Bytes) (from to : ℕ) (body : Bytes) : Type 0 where
  pub before : List Bytes
  pub middle : List Bytes
  pub after : List Bytes
  pub splits : lines ≡ before ++ (middle ++ after)
  pub skipped : length before + 1 ≡ from
  pub taken : length middle ≡ to + 1 - from
  pub shown : body ≡ lines_of 10 middle
  pub read_back : split body 10 ≡ middle

line_range-IsRange :
    (lines : List Bytes) (from to : ℕ)
    → 1 ≤ from
    → from ≤ length lines
    → to ≤ length lines
    → All (Lacks 10) lines
    → IsRange lines from to (line_range lines (pos from) (pos to))
unfolding line_range
line_range-IsRange lines from to h k m lacks = record {
  before = take (from - 1) lines;
  middle = take (to - (from - 1)) (drop (from - 1) lines);
  after = drop (to - (from - 1)) (drop (from - 1) lines);
  splits = three_parts (from - 1) (to - (from - 1)) lines;
  skipped = omega (arith, length-take (from - 1) lines (omega arith));
  taken =
      let rest = length-drop (from - 1) lines in
      omega
        (arith, rest, length-take (to - (from - 1)) (drop (from - 1) lines) (omega (arith, rest)));
  shown = ended_lines-lines_of _;
  read_back =
      ap (λ t. split t 10) (ended_lines-lines_of _)
      ∙ split-lines_of 10 _
          (All-take (Lacks 10) (to - (from - 1)) _ (All-drop (Lacks 10) (from - 1) lines lacks));
}

-- The parameter as a line number: the default where it is missing, empty or no number, and the
-- nearest line of the file where it is out of range.
abbrev pub line_number : Option Bytes → (default_val total : ℕ) → ℤ
line_number p default_val total = safe_param_int p (pos default_val) (pos 1) (pos total)

pos_of_bounds :
    (v : ℤ) (n : ℕ) → pos 1 ≤ℤ v → v ≤ℤ pos n → (m : ℕ) × (v ≡ pos m) × (1 ≤ m) × (m ≤ n)
pos_of_bounds (pos m) n h k = (m, refl, omega arith, omega arith)
pos_of_bounds (negsuc m) n h k = absurd (omega arith)

answers :
    (print : ℕ → Bytes) (req : Request) (content : Bytes) (from to : ℕ)
    → let lines = split content 10 in
      (is_given (req.param (codes "from")) || is_given (req.param (codes "to"))) ≡ true
      → line_number (req.param (codes "from")) 1 (length lines) ≡ pos from
      → line_number (req.param (codes "to")) (length lines) (length lines) ≡ pos to
      → file_answer print req content
        ≡ add_header
            (codes "X-Lines-Total")
            (print (length lines))
            (plain_text (line_range lines (pos from) (pos to)))
unfolding file_answer range_answer
answers print req content from to given is_from is_to = rw (given, is_from, is_to)

-- A GET of a file that has a byte, with `from` or `to`, answers whole lines of it, each with a
-- newline: those from the one number to the other, and none if they are in the wrong order. The
-- numbers are within the file, whatever the parameters say, and count from 1; the header has the
-- number of lines. Split again, the answer
-- gives the same lines.
pub file_answer-IsRange :
    (print : ℕ → Bytes) (req : Request) (content : Bytes)
    → content ≢ []
    → (is_given (req.param (codes "from")) || is_given (req.param (codes "to"))) ≡ true
    → let lines = split content 10 in
      (from : ℕ) × (to : ℕ) × (body : Bytes) × (line_number
          (req.param (codes "from"))
          1
          (length lines)
        ≡ pos from)
      × (line_number (req.param (codes "to")) (length lines) (length lines) ≡ pos to)
      × (1 ≤ from)
      × (from ≤ length lines)
      × (1 ≤ to)
      × (to ≤ length lines)
      × IsRange lines from to body
      × (file_answer print req content
          ≡ add_header (codes "X-Lines-Total") (print (length lines)) (plain_text body))
file_answer-IsRange print req content n given =
    let lines = split content 10 in
    let some_line = split-some content n in
    let (from_low, from_high) =
      safe_param_int-within (req.param (codes "from")) (pos 1) (pos 1) (pos (length lines))
        (omega arith) (omega arith) in
    let (to_low, to_high) =
      safe_param_int-within (req.param (codes "to")) (pos (length lines)) (pos 1)
        (pos (length lines)) (omega arith) (omega arith) in
    let (from, is_from, f, g) = pos_of_bounds _ (length lines) from_low from_high in
    let (to, is_to, h, k) = pos_of_bounds _ (length lines) to_low to_high in
    (
      from,
      to,
      line_range lines (pos from) (pos to),
      is_from,
      is_to,
      f,
      g,
      h,
      k,
      line_range-IsRange lines from to f g k (split-Lacks 10 content),
      answers print req content from to given is_from is_to,
    )
