-- ===== src/Patch/Replace.antt =====
-- `find_replace`, and what every successful patch leaves.
use project_tracker.Base.{
  ◌⊎◌, ℕ, ◌+◌, ◌≡◌, inl, inr, refl, sym, ap, ap₂, ◌∙◌, Option, none, some, List, [], ◌∷◌, ◌++◌,
  append_assoc, length, length-append, take, drop, Bytes, codes, Option-cases,
}
use project_tracker.Text.{split, find}
use project_tracker.Text.Find.{FirstAt, find-FirstAt, find-none, take-append_self, drop-append_self}
use project_tracker.Json.{Json, object, field, end, string, string_at}
use project_tracker.Patch.{join_lines, replace_found, find_replace, saved, apply_patch}
use project_tracker.Patch.Lines.{file_of, text_of, file_of-text_of}

-- The request to replace `old` by `new`.
abbrev pub replacement : (old new : Bytes) → Json
replacement old new = object (
    field (codes "op") (string (codes "find_replace"))
      (field (codes "find") (string old) (field (codes "with") (string new) end)))

replacement_lem :
    (old new content : Bytes)
    → apply_patch (replacement old new) content
      ≡ saved (find_replace (split content 10) (some old) new)
unfolding apply_patch string_at
replacement_lem old new content = refl

take-before : (a p b : Bytes) → take (length a) (a ++ (p ++ b)) ≡ a
take-before a p b = take-append_self a (p ++ b)

drop-behind : (a p b : Bytes) → drop (length a + length p) (a ++ (p ++ b)) ≡ b
drop-behind a p b =
    ap₂ drop (sym (length-append a p)) (sym (append_assoc a p b)) ∙ drop-append_self (a ++ p) b

replace_found_lem :
    (joined old new before after : Bytes)
    → joined ≡ before ++ (old ++ after)
    → replace_found joined old new (some (length before))
      ≡ some (split (before ++ (new ++ after)) 10)
unfolding replace_found
replace_found_lem joined old new before after e =
    rw e (rw (take-before before old after, drop-behind before old after))

none-ne-some : {c : Bytes} → ¬ (◌≡◌ {A = Option Bytes} none (some c))
none-ne-some e = cc

some_injective : {a b : Bytes} → ◌≡◌ {A = Option Bytes} (some a) (some b) → a ≡ b
some_injective e = cc

replace_found-none : (joined old new : Bytes) → replace_found joined old new none ≡ none
unfolding replace_found
replace_found-none joined old new = refl

some-ne-none :
    (old new content : Bytes) (i : ℕ)
    → ¬ (saved (replace_found (join_lines (split content 10)) old new (some i)) ≡ none)
unfolding replace_found
some-ne-none old new content i e = cc

-- `find_replace` exchanges the first occurrence of the text in the joined lines, and no other: what
-- is saved are the lines of the text in front of it, the new text and the text behind it.
pub find_replace-first :
    (old new content saved_text : Bytes)
    → apply_patch (replacement old new) content ≡ some saved_text
    → (before : Bytes) × (f : FirstAt (join_lines (split content 10)) old before) × (saved_text
        ≡ file_of (split (before ++ (new ++ f.after)) 10))
unfolding find_replace
find_replace-first old new content saved_text e =
    let joined = join_lines (split content 10) in
    let e' : saved (
          replace_found (join_lines (split content 10)) old new
            (find (join_lines (split content 10)) old))
        ≡ some saved_text =
      sym (replacement_lem old new content) ∙ e in
    elim (Option-cases (find (join_lines (split content 10)) old)) [
      | inl missing ↦ absurd (
          none-ne-some (
            ap saved (
              sym (replace_found-none joined old new)
              ∙ ap (replace_found joined old new) (sym missing))
            ∙ e'))
      | inr (at, found) ↦
          let (before, f, here) = find-FirstAt (join_lines (split content 10)) old at found in
          let hit : find (join_lines (split content 10)) old ≡ some (length before) =
            found ∙ ap some here in
          (
            before,
            f,
            some_injective (
                sym e'
                ∙ ap saved (
                    ap (replace_found joined old new) hit
                    ∙ replace_found_lem joined old new before f.after f.splits)),
          )
    ]

-- If the replacement is refused, the text stands nowhere in the joined lines.
pub find_replace-refused :
    (old new content : Bytes)
    → apply_patch (replacement old new) content ≡ none
    → (a b : Bytes) → ¬ (join_lines (split content 10) ≡ a ++ (old ++ b))
unfolding find_replace
find_replace-refused old new content e a b h =
    find-none (join_lines (split content 10)) old (none_found _ e') a b h
  where
    e' :
        saved (
          replace_found
            (join_lines (split content 10))
            old
            new
            (find (join_lines (split content 10)) old))
        ≡ none
    e' = sym (replacement_lem old new content) ∙ e

    none_found :
        (o : Option ℕ)
        → saved (replace_found (join_lines (split content 10)) old new o) ≡ none
        → o ≡ none
    none_found none z = refl
    none_found (some i) z = absurd (some-ne-none old new content i z)

-- The lines of the content with a newline between any two of them, and none behind the last.
abbrev pub IsJoined : (content joined : Bytes) → Type 0
IsJoined content joined = joined ++ 10 ∷ [] ≡ text_of (split content 10)

-- What `find_replace` does to a joined text.
abbrev pub Replaces : (old new content joined : Bytes) → Type 0
Replaces old new content joined =
    ((before : Bytes) × (f : FirstAt joined old before) × (apply_patch (replacement old new) content
        ≡ some (text_of (split (before ++ (new ++ f.after)) 10))))
    ⊎ ((apply_patch (replacement old new) content ≡ none)
        × ((a b : Bytes) → ¬ (joined ≡ a ++ (old ++ b))))

-- For the text of the content's lines with one newline between any two of them: either the text
-- that is asked for stands in it, and then `find_replace` exchanges its first occurrence there and
-- saves each line of the result with a newline behind it, or one newline alone if the result is
-- empty; or `find_replace` is refused, and the text stands nowhere in it.
pub find_replace-cases :
    (old new content : Bytes)
    → (joined : Bytes) × IsJoined content joined × Replaces old new content joined
find_replace-cases old new content = (
  join_lines (split content 10),
  file_of-text_of (split content 10),
  elim (Option-cases (apply_patch (replacement old new) content)) [
    | inl e ↦ inr (e, find_replace-refused old new content e)
    | inr (saved_text, e) ↦
        let (before, f, same) = find_replace-first old new content saved_text e in
        inl (before, f, e ∙ ap some (same ∙ file_of-text_of _))
  ],
)

saved-newline :
    (o : Option (List Bytes)) (c : Bytes) → saved o ≡ some c → (a : Bytes) × (c ≡ a ++ 10 ∷ [])
saved-newline none c e = cc
saved-newline (some ls) c e = (join_lines ls, cc)

-- Whatever the operation, a patched file ends with a newline; so it is never empty.
pub apply_patch-newline :
    (patch : Json) (content c : Bytes)
    → apply_patch patch content ≡ some c
    → (a : Bytes) × (c ≡ a ++ 10 ∷ [])
unfolding apply_patch
apply_patch-newline patch content c e = saved-newline _ c e
