-- ===== src/Browser/Forms/Edits.antt =====
-- What an edit in the dialogue changes.
use project_tracker.Base.{
  ◌≡◌, ◌≢◌, refl, ◌∙◌, ap, true, false, Option, none, some, List, [], ◌∷◌, All, any, if_cases,
  Bool-cases, inl, inr, is_empty, if◌then◌else◌, Bytes, bytes_eq, codes,
}
use project_tracker.Json.{Fields, end, string_at, at, find_field, as_string}
use project_tracker.Models.{to_json_full}
use project_tracker.Db.{ProjectRow, Database, Sql}
use project_tracker.Db.Projects.{detail, changed_row, get_field, or_current}
use project_tracker.Browser.Forms.{
  Controls, ControlsLaws, EditForm, edit, with_value, save_body, text_or, status_options,
  priority_options,
}

-- A text of the form, or the old one where the form has none.
abbrev pub or_old : (val old : Bytes) → Bytes
or_old val old = if is_empty val then old else val

text_at : Bytes → Fields → Option Bytes
text_at key fs = as_string (find_field key fs)

-- The fields that are sent of a list of keys with their values.
save_fields : List (Bytes × Bytes) → Fields
save_fields [] = end
save_fields ((key, val) ∷ rest) = with_value key val (save_fields rest)

value_of : Bytes → List (Bytes × Bytes) → Option Bytes
value_of key [] = none
value_of key ((other, val) ∷ rest) =
    let later = value_of key rest in
    if bytes_eq other key then (if is_empty val then later else some val) else later

text_at-save_fields :
    (key : Bytes) (kvs : List (Bytes × Bytes)) → text_at key (save_fields kvs) ≡ value_of key kvs
unfolding text_at save_fields with_value find_field value_of
text_at-save_fields key [] = refl
text_at-save_fields key ((other, val) ∷ rest) =
    let same = text_at-save_fields key rest in
    if_cases
      (λ fs. text_at key fs ≡ (
        if bytes_eq other key
        then (if is_empty val then value_of key rest else some val)
        else value_of key rest))
      (is_empty val) _ _
      (λ e. elim (Bool-cases (bytes_eq other key)) [ inl k ↦ rw (k, e) same | inr k ↦ rw k same ])
      (λ e. elim (Bool-cases (bytes_eq other key)) [ inl k ↦ rw (k, e) refl | inr k ↦ rw k same ])

or_current_value :
    (val old : Bytes) → or_current (if is_empty val then none else some val) old ≡ or_old val old
or_current_value val old =
    if_cases (λ o. or_current o old ≡ or_old val old) (is_empty val) _ _ (λ e. rw e refl)
      (λ e. refl)

form_values : EditForm → List (Bytes × Bytes)
form_values f =
    (codes "name", f.name)
    ∷ (codes "status", f.status)
    ∷ (codes "priority", f.priority)
    ∷ (codes "tags", f.tags)
    ∷ (codes "description", f.description)
    ∷ (codes "repo_path", f.repo_path)
    ∷ []

-- The row with the values of the form, where there are some.
abbrev pub filled_in : EditForm → (now : Bytes) → ProjectRow → ProjectRow
filled_in f now p = record p {
  name = or_old f.name p.name;
  status = or_old f.status p.status;
  priority = or_old f.priority p.priority;
  tags = or_old f.tags p.tags;
  description = or_old f.description p.description;
  repo_path = or_old f.repo_path p.repo_path;
  updated_at = now;
}

-- One field of the body.
get_field-save_body :
    (f : EditForm) (key val old : Bytes)
    → value_of key (form_values f) ≡ (if is_empty val then none else some val)
    → get_field (save_body f) key old ≡ or_old val old
unfolding get_field string_at at save_body form_values text_at save_fields
get_field-save_body f key val old e =
    ap (λ o. or_current o old) (text_at-save_fields key (form_values f) ∙ e)
    ∙ or_current_value val old

changed_row-save_body :
    (f : EditForm) (now : Bytes) (p : ProjectRow)
    → changed_row (save_body f) now p ≡ filled_in f now p
unfolding changed_row value_of form_values bytes_eq
changed_row-save_body f now p = λ i. record p {
  name = get_field-save_body f (codes "name") f.name p.name refl i;
  status = get_field-save_body f (codes "status") f.status p.status refl i;
  priority = get_field-save_body f (codes "priority") f.priority p.priority refl i;
  tags = get_field-save_body f (codes "tags") f.tags p.tags refl i;
  description = get_field-save_body f (codes "description") f.description p.description refl i;
  repo_path = get_field-save_body f (codes "repo_path") f.repo_path p.repo_path refl i;
  updated_at = now;
}

or_old_self : (s : Bytes) → or_old s s ≡ s
or_old_self [] = refl
or_old_self (c ∷ s) = refl

text_or_empty : (s : Bytes) → text_or [] (some s) ≡ s
unfolding text_or
text_or_empty [] = refl
text_or_empty (c ∷ s) = refl

abbrev pub IsOption : List Bytes → Bytes → Type 0
IsOption options s = any (λ o. bytes_eq o s) options ≡ true

-- A text that an input keeps: one line.
abbrev pub IsLine : Bytes → Type 0
IsLine s = All (λ c. c ≢ 10) s × All (λ c. c ≢ 13) s

module _ (controls : Controls) (laws : ControlsLaws controls) where
  kept_text : (s : Bytes) → IsLine s → or_old (controls.text_value (text_or [] (some s))) s ≡ s
  kept_text s (lf, cr) =
      ap (λ t. or_old (controls.text_value t) s) (text_or_empty s)
      ∙ (ap (λ t. or_old t s) (laws.keeps_text s lf cr) ∙ or_old_self s)

  -- Whatever the default: the value of the choice is that of the project.
  kept_choice :
      (options : List Bytes) (d s : Bytes)
      → is_empty s ≡ false
      → IsOption options s
      → or_old (controls.choice_value options (text_or d (some s))) s ≡ s
  unfolding text_or
  kept_choice options d [] n h = cc
  kept_choice options d (c ∷ s) n h =
      ap (λ t. or_old t (c ∷ s)) (laws.keeps_choice options (c ∷ s) h) ∙ or_old_self (c ∷ s)

  some_status : (s : Bytes) → IsOption status_options s → is_empty s ≡ false
  unfolding bytes_eq
  some_status [] h = cc
  some_status (c ∷ s) h = refl

  some_priority : (s : Bytes) → IsOption priority_options s → is_empty s ≡ false
  unfolding bytes_eq
  some_priority [] h = cc
  some_priority (c ∷ s) h = refl

  -- To open the dialogue on what a GET shows of a project, and to save it as it stands, changes
  -- nothing of the project but the time of its update, where its status and its priority are among
  -- the options of the dialogue and its name, tags, description and repo_path have one line each,
  -- in controls that behave as HTML documents them.
  pub changed_row-edit :
      (sql : Sql) (db : Database) (p : ProjectRow) (now : Bytes)
      → IsOption status_options p.status
      → IsOption priority_options p.priority
      → IsLine p.name
      → IsLine p.tags
      → IsLine p.description
      → IsLine p.repo_path
      → changed_row (save_body (edit controls (to_json_full (detail sql db p)))) now p
        ≡ record p { updated_at = now }
  unfolding edit to_json_full detail string_at at find_field bytes_eq
  changed_row-edit sql db p now st pr name tags description repo_path =
      changed_row-save_body (edit controls (to_json_full (detail sql db p))) now p ∙ (λ i.
        record p {
          name = kept_text p.name name i;
          status =
              kept_choice status_options (codes "active") p.status (some_status p.status st) st i;
          priority =
              kept_choice priority_options (codes "medium") p.priority (some_priority p.priority pr)
                pr i;
          tags = kept_text p.tags tags i;
          description = kept_text p.description description i;
          repo_path = kept_text p.repo_path repo_path i;
          updated_at = now;
        })
