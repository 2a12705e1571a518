-- ===== src/Auth/Cookie.antt =====
-- `extractSessionToken` of src/security/auth.cpp.
use project_tracker.Base.{
  ℕ, suc, ◌+◌, ◌≡◌, ◌≢◌, refl, sym, ap, subst, ◌⊎◌, inl, inr, ◌==◌, Bool-cases, Option-cases, ◌∙◌,
  false, none, some, [], ◌∷◌, ◌++◌, append_assoc, arith, All, length, length-append, is_empty,
  Bytes, bytes_eq, codes, drop, if_cases, ap₂,
}
use project_tracker.Text.{starts_with, find_from, find}
use project_tracker.Text.Split.{Lacks}
use project_tracker.Text.Find.{
  FirstAt, find-FirstAt, find_at-FirstAt, append→starts_with, drop-append_self, take-append_self,
}
use project_tracker.Auth.{up_to_semicolon, extract_session_token, generate_token}
use project_tracker.Auth.Keys.{IsByte, HexDigit, generate_token-HexDigit}

-- A text that begins with another byte does not start with `p`.
starts_with-ne : (c d : ℕ) (s p : Bytes) → c ≢ d → starts_with (c ∷ s) (d ∷ p) ≡ false
unfolding starts_with bytes_eq
starts_with-ne c d s p h = ground arith

-- The search passes over a text that lacks the first byte of `p`.
find_from-Lacks :
    (a s p : Bytes) (d i : ℕ)
    → Lacks d a
    → find_from (a ++ s) (d ∷ p) i ≡ find_from s (d ∷ p) (length a + i)
unfolding find_from
find_from-Lacks [] s p d i h = ap (find_from s (d ∷ p)) (omega arith)
find_from-Lacks (c ∷ a) s p d i (h, hs) =
    rw (starts_with-ne c d (a ++ s) p h)
      (find_from-Lacks a s p d (suc i) hs ∙ ap (find_from s (d ∷ p)) (omega arith))

find_from_here : (s p : Bytes) (d i : ℕ) → find_from ((d ∷ p) ++ s) (d ∷ p) i ≡ some i
unfolding find_from
find_from_here s p d i = rw (append→starts_with (d ∷ p) s)

pub find-Lacks :
    (a s p : Bytes) (d : ℕ) → Lacks d a → find (a ++ ((d ∷ p) ++ s)) (d ∷ p) ≡ some (length a)
unfolding find
find-Lacks a s p d h =
    find_from-Lacks a ((d ∷ p) ++ s) p d 0 h
    ∙ find_from_here s p d (length a + 0)
    ∙ ap some (omega arith)

find_from-Lacks_end : (a p : Bytes) (d i : ℕ) → Lacks d a → find_from a (d ∷ p) i ≡ none
unfolding find_from
find_from-Lacks_end [] p d i h = refl
find_from-Lacks_end (c ∷ a) p d i (h, hs) =
    rw (starts_with-ne c d a p h) (find_from-Lacks_end a p d (suc i) hs)

up_to_semicolon-append :
    (token rest : Bytes) → Lacks 59 token → up_to_semicolon (token ++ 59 ∷ rest) ≡ token
unfolding up_to_semicolon
up_to_semicolon-append token rest h =
    rw (find-Lacks token rest [] 59 h, up_to_semicolon) (take-append_self token (59 ∷ rest))

up_to_semicolon_last : (token : Bytes) → Lacks 59 token → up_to_semicolon token ≡ token
unfolding up_to_semicolon find
up_to_semicolon_last token h = rw (find_from-Lacks_end token [] 59 0 h, up_to_semicolon)

-- The eight bytes "session=" as the search sees them.
abbrev name_tail : Bytes
name_tail = codes "ession="

drop-name :
    (before rest : Bytes) → drop (length before + 8) (before ++ ((115 ∷ name_tail) ++ rest)) ≡ rest
drop-name before rest =
    ap₂ drop (sym (length-append before (115 ∷ name_tail)))
      (sym (append_assoc before (115 ∷ name_tail) rest))
    ∙ drop-append_self (before ++ 115 ∷ name_tail) rest

is_empty-cons : (a : Bytes) (c : ℕ) (s : Bytes) → is_empty (a ++ c ∷ s) ≡ false
is_empty-cons [] c s = refl
is_empty-cons (d ∷ a) c s = refl

extract_lem :
    (before rest : Bytes)
    → Lacks 115 before
    → extract_session_token (before ++ ((115 ∷ name_tail) ++ rest)) ≡ up_to_semicolon rest
unfolding extract_session_token
extract_lem before rest h =
    if_cases (λ s. s ≡ up_to_semicolon rest) (is_empty (before ++ ((115 ∷ name_tail) ++ rest))) _ _
      (λ e. cc (is_empty-cons before 115 (name_tail ++ rest)))
      (λ _.
        rw (find-Lacks before rest name_tail 115 h) (ap up_to_semicolon (drop-name before rest)))

-- The value behind the first "session=" of the header is returned, up to the next ';', whatever
-- stands in front of it without an 's': also where these bytes end the name of another cookie.
pub extract_session_token-first :
    (before token rest : Bytes)
    → Lacks 115 before
    → Lacks 59 token
    → extract_session_token (before ++ (codes "session=" ++ (token ++ 59 ∷ rest))) ≡ token
extract_session_token-first before token rest h k =
    extract_lem before (token ++ 59 ∷ rest) h ∙ up_to_semicolon-append token rest k

-- The token that a cookie header names: what stands behind the first `session=`, wherever that
-- is, up to the next ';' or to the end.
pub record NamesToken (cookie token : Bytes) : Type 0 where
  pub before : Bytes
  pub first : FirstAt cookie (codes "session=") before
  pub lacks : Lacks 59 token
  pub ends : (first.after ≡ token) ⊎ ((rest : Bytes) × (first.after ≡ token ++ 59 ∷ rest))

CutsAt : (s token : Bytes) → Type 0
CutsAt s token = Lacks 59 token × ((s ≡ token) ⊎ ((rest : Bytes) × (s ≡ token ++ 59 ∷ rest)))

-- Every text has a part up to its first ';', or up to its end.
cut_at_semicolon : (s : Bytes) → (token : Bytes) × CutsAt s token
unfolding CutsAt
cut_at_semicolon [] = ([], (tt, inl refl))
cut_at_semicolon (c ∷ s) = elim (Bool-cases (c == 59)) [
  | inl e ↦ ([], (tt, inr (s, ap (λ d. d ∷ s) (ground arith))))
  | inr e ↦
      let (token, (lacks, ends)) = cut_at_semicolon s in
      (
        c ∷ token,
        (
          (ground arith, lacks),
          elim ends [ inl k ↦ inl (ap (◌∷◌ c) k) | inr (rest, k) ↦ inr (rest, ap (◌∷◌ c) k) ],
        ),
      )
]

up_to_semicolon_lem : (s token : Bytes) → CutsAt s token → up_to_semicolon s ≡ token
unfolding CutsAt
up_to_semicolon_lem s token (lacks, inl e) = rw e (up_to_semicolon_last token lacks)
up_to_semicolon_lem s token (lacks, inr (rest, e)) = rw e (up_to_semicolon-append token rest lacks)

extract_session_token_found :
    (cookie before : Bytes) (f : FirstAt cookie (codes "session=") before)
    → find cookie (codes "session=") ≡ some (length before)
    → extract_session_token cookie ≡ up_to_semicolon f.after
unfolding extract_session_token
extract_session_token_found cookie before f found =
    if_cases (λ s. s ≡ up_to_semicolon f.after) (is_empty cookie) _ _
      (λ e. cc (ap is_empty f.splits, is_empty-cons before 115 (name_tail ++ f.after)))
      (λ _.
        rw found
          (ap up_to_semicolon (ap (drop (length before + 8)) f.splits ∙ drop-name before f.after)))

-- A header names at most the token that is extracted.
pub extract_session_token-NamesToken :
    (cookie token : Bytes) → NamesToken cookie token → extract_session_token cookie ≡ token
unfolding CutsAt
extract_session_token-NamesToken cookie token n =
    extract_session_token_found cookie n.before n.first
      (find_at-FirstAt cookie (codes "session=") n.before n.first)
    ∙ up_to_semicolon_lem n.first.after token (n.lacks, n.ends)

-- A token that is not empty is the one that the header names.
pub NamesToken-extract_session_token :
    (cookie : Bytes)
    → is_empty (extract_session_token cookie) ≡ false
    → NamesToken cookie (extract_session_token cookie)
unfolding extract_session_token CutsAt
NamesToken-extract_session_token cookie h = elim (Option-cases (find cookie (codes "session="))) [
  | inl e ↦ absurd (not_found e)
  | inr (at, e) ↦
      let (before, f, here) = find-FirstAt cookie (codes "session=") at e in
      let (token, cut) = cut_at_semicolon f.after in
      let same : extract_session_token cookie ≡ token =
        extract_session_token_found cookie before f (e ∙ ap some here)
        ∙ up_to_semicolon_lem f.after token cut in
      subst (NamesToken cookie) (sym same)
        (record { before = before; first = f; lacks = cut.0; ends = cut.1 })
]
  where
    not_found : ¬ (find cookie (codes "session=") ≡ none)
    not_found e = ground (arith, h, e)

pub HexDigit-Lacks : (s : Bytes) → All HexDigit s → Lacks 59 s
HexDigit-Lacks [] h = tt
HexDigit-Lacks (c ∷ s) (p, h) = (ground arith, HexDigit-Lacks s h)

-- The token of a new session comes back from the cookie that a browser sends for it, as the only
-- cookie or with others behind it.
pub extract_session_token-generate_token :
    (random rest : Bytes)
    → All IsByte random
    → (extract_session_token (codes "session=" ++ generate_token random) ≡ generate_token random)
      × (extract_session_token (codes "session=" ++ (generate_token random ++ 59 ∷ rest))
          ≡ generate_token random)
extract_session_token-generate_token random rest h =
    let clean = HexDigit-Lacks (generate_token random) (generate_token-HexDigit random h) in
    (
      extract_lem [] (generate_token random) tt
          ∙ up_to_semicolon_last (generate_token random) clean,
      extract_session_token-first [] (generate_token random) rest tt clean,
    )
