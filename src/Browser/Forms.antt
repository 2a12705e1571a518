-- ===== src/Browser/Forms.antt =====
-- webui/js/projects.js: the dialogue that edits a project. What a text input and a choice hold
-- after a page has set their value is the browser's: `Controls`.
pub mod Edits
use project_tracker.Base.{
  ℕ, ◌≡◌, Bool, true, false, Option, none, some, List, [], ◌∷◌, if◌then◌else◌, is_empty, any, All,
  ◌≢◌, bytes_eq, Bytes, codes,
}
use project_tracker.Json.{Json, object, string, Fields, field, end, string_at}

-- An input of type text, and a select element with the values of its options.
pub record Controls : Type 0 where
  pub text_value : Bytes → Bytes
  pub choice_value : List Bytes → Bytes → Bytes

-- As HTML documents them: an input takes out line feeds and carriage returns, and a select element
-- has the value of the option that is chosen.
pub record ControlsLaws (controls : Controls) : Type 0 where
  pub keeps_text :
      (s : Bytes) → All (λ c. c ≢ 10) s → All (λ c. c ≢ 13) s → controls.text_value s ≡ s
  pub keeps_choice :
      (options : List Bytes) (s : Bytes)
      → any (λ o. bytes_eq o s) options ≡ true
      → controls.choice_value options s ≡ s

pub record EditForm : Type 0 where
  pub name : Bytes
  pub status : Bytes
  pub priority : Bytes
  pub tags : Bytes
  pub description : Bytes
  pub repo_path : Bytes

-- The options of the two choices in webui/html/index.html.
abbrev pub status_options : List Bytes
status_options =
    codes "active" ∷ codes "paused" ∷ codes "completed" ∷ codes "abandoned" ∷ codes "archived" ∷ []

abbrev pub priority_options : List Bytes
priority_options = codes "high" ∷ codes "medium" ∷ codes "low" ∷ []

-- `p.key || d`, where the value is a text
unfoldable pub text_or : Bytes → Option Bytes → Bytes
text_or d none = d
text_or d (some s) = if is_empty s then d else s

module _ (controls : Controls) where
  -- `edit`: the dialogue for the project that the server has answered.
  unfoldable pub edit : Json → EditForm
  unfolding text_or
  edit p = record {
    name = controls.text_value (text_or [] (string_at (codes "name") p));
    status =
        controls.choice_value status_options
          (text_or (codes "active") (string_at (codes "status") p));
    priority =
        controls.choice_value priority_options
          (text_or (codes "medium") (string_at (codes "priority") p));
    tags = controls.text_value (text_or [] (string_at (codes "tags") p));
    description = controls.text_value (text_or [] (string_at (codes "description") p));
    repo_path = controls.text_value (text_or [] (string_at (codes "repo_path") p));
  }

-- `if (val) body[key] = val;`
unfoldable pub with_value : (key val : Bytes) → Fields → Fields
with_value key val rest = if is_empty val then rest else field key (string val) rest

-- The body that `save` sends.
unfoldable pub save_body : EditForm → Json
save_body f = object (
    with_value (codes "name") f.name (
      with_value (codes "status") f.status (
        with_value (codes "priority") f.priority (
          with_value (codes "tags") f.tags (
            with_value (codes "description") f.description
              (with_value (codes "repo_path") f.repo_path end))))))
