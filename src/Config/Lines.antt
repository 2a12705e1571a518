-- ===== src/Config/Lines.antt =====
-- What a line of the .env file sets.
use project_tracker.Base.{
  ℕ, suc, ◌+◌, ◌≡◌, refl, ap, ◌∙◌, false, some, List, [], ◌∷◌, ◌++◌, arith, ◌==◌, Bytes, codes,
  length, drop,
}
use project_tracker.Base.Dict.{lookup, put, lookup-put_self}
use project_tracker.Text.{trim, find}
use project_tracker.Text.Split.{Lacks}
use project_tracker.Text.Find.{take-append_self}
use project_tracker.Auth.Cookie.{find-Lacks}
use project_tracker.Config.{
  Config, section_of, unquoted, set_env, store_pair, parse_trimmed, parse_line, get, has_key,
  has_section, value_at,
}

section_of-set_env :
    (c : Config) (key val : Bytes)
    → lookup (codes "env") (set_env c key val).sections
      ≡ some (put key val (section_of c (codes "env")))
unfolding set_env
section_of-set_env c key val =
    lookup-put_self (codes "env") (put key val (section_of c (codes "env"))) c.sections

get_found :
    (c : Config) (key d v : Bytes) (m : List (Bytes × Bytes))
    → lookup (codes "env") c.sections ≡ some m
    → lookup key m ≡ some v
    → get c (codes "env") key d ≡ v
unfolding get has_key has_section value_at section_of
get_found c key d v m e f = rw (e, get, has_key, has_section, value_at, section_of, f)

get-set_env : (c : Config) (key val d : Bytes) → get (set_env c key val) (codes "env") key d ≡ val
get-set_env c key val d =
    get_found (set_env c key val) key d val (put key val (section_of c (codes "env")))
      (section_of-set_env c key val) (lookup-put_self key val (section_of c (codes "env")))

suc_past : (n : ℕ) → suc n + 1 ≡ suc (n + 1)
suc_past n = omega arith

drop-past : (p : Bytes) (x : ℕ) (s : Bytes) → drop (length p + 1) (p ++ x ∷ s) ≡ s
drop-past [] x s = refl
drop-past (c ∷ p) x s = ap (λ n. drop n (c ∷ (p ++ x ∷ s))) (suc_past (length p)) ∙ drop-past p x s

-- The position of the first '=' cuts the line into its key and its value.
store_pair_lem :
    (c : Config) (key val : Bytes)
    → Lacks b'=' key
    → store_pair c (key ++ b'=' ∷ val) (find (key ++ b'=' ∷ val) (b'=' ∷ []))
      ≡ set_env c (trim key) (unquoted (trim val))
store_pair_lem c key val h =
    rw (find-Lacks key val [] b'=' h, take-append_self key (b'=' ∷ val), drop-past key b'=' val)

-- A line that is `KEY=VALUE` between blanks, whose key has no '=' and which is no comment, sets the
-- trimmed key to the trimmed value without its quotes.
pub get-parse_line :
    (c : Config) (line : Bytes) (b : ℕ) (key val d : Bytes)
    → trim line ≡ (b ∷ key) ++ b'=' ∷ val
    → (b == b'#') ≡ false
    → Lacks b'=' (b ∷ key)
    → get (parse_line line c) (codes "env") (trim (b ∷ key)) d ≡ unquoted (trim val)
unfolding parse_line parse_trimmed
get-parse_line c line b key val d e n h =
    rw (e, n, store_pair_lem c (b ∷ key) val h)
      (get-set_env c (trim (b ∷ key)) (unquoted (trim val)) d)
