-- ===== src/Routes/Writes/Fields.antt =====
-- The fields of the projects that get into the database through the handlers.
use project_tracker.Base.{
  ℕ, ◌≡◌, refl, Bool, true, false, Option, none, some, [], arith, Bytes, codes, if_cases, is_empty,
}
use project_tracker.Json.{Json, string_at}
use project_tracker.Models.{from_json, read_into}
use project_tracker.Sanitizer.{
  is_valid_status, is_valid_priority, is_clean_string, contains_null_bytes, contains_control_chars,
}
use project_tracker.Db.{ProjectRow}
use project_tracker.Db.Projects.{new_row, changed_row, get_field, or_current, or_default}
use project_tracker.Routes.ProjectRoutes.{field_error, unclean_field, is_refused}

abbrev is_clean_text : Bytes → Bool
is_clean_text s = is_clean_string s 1024

-- A text field that is short enough and holds no control byte but tab and line ends.
abbrev pub IsClean : Bytes → Type 0
IsClean s = is_clean_string s 1024 ≡ true

-- A status and a priority of the lists, and clean texts.
pub record IsTidy (p : ProjectRow) : Type 0 where
  pub status : is_valid_status p.status ≡ true
  pub priority : is_valid_priority p.priority ≡ true
  pub name : IsClean p.name
  pub tags : IsClean p.tags
  pub description : IsClean p.description
  pub repo_path : IsClean p.repo_path

-- The body passes the checks of the fields.
pub record IsChecked (body : Json) : Type 0 where
  status : is_refused is_valid_status (string_at (codes "status") body) ≡ false
  priority : is_refused is_valid_priority (string_at (codes "priority") body) ≡ false
  name : is_refused is_clean_text (string_at (codes "name") body) ≡ false
  tags : is_refused is_clean_text (string_at (codes "tags") body) ≡ false
  description : is_refused is_clean_text (string_at (codes "description") body) ≡ false
  repo_path : is_refused is_clean_text (string_at (codes "repo_path") body) ≡ false

pub field_error-IsChecked : (body : Json) → field_error body ≡ none → IsChecked body
unfolding field_error unclean_field
field_error-IsChecked body h = record {
  status = ground arith;
  priority = ground arith;
  name = ground arith;
  tags = ground arith;
  description = ground arith;
  repo_path = ground arith;
}

module _ (valid : Bytes → Bool) where
  valid-or_default :
      (o : Option Bytes) (d : Bytes)
      → valid d ≡ true
      → is_refused valid o ≡ false
      → valid (or_default (read_into [] o) d) ≡ true
  valid-or_default none d h k = h
  valid-or_default (some s) d h k =
      if_cases (λ t. valid t ≡ true) (is_empty s) _ _ (λ _. h) (λ _. ground arith)

  valid-read_into :
      (o : Option Bytes)
      → valid [] ≡ true
      → is_refused valid o ≡ false
      → valid (read_into [] o) ≡ true
  valid-read_into none h k = h
  valid-read_into (some s) h k = ground arith

  valid-or_current :
      (o : Option Bytes) (current : Bytes)
      → valid current ≡ true
      → is_refused valid o ≡ false
      → valid (or_current o current) ≡ true
  valid-or_current none current h k = h
  valid-or_current (some s) current h k =
      if_cases (λ t. valid t ≡ true) (is_empty s) _ _ (λ _. h) (λ _. ground arith)

empty-IsClean : IsClean []
unfolding is_clean_string contains_null_bytes contains_control_chars
empty-IsClean = refl

pub new_row-IsTidy :
    (id : ℕ) (body : Json) (now : Bytes) → IsChecked body → IsTidy (new_row id (from_json body) now)
unfolding new_row from_json is_valid_status is_valid_priority
new_row-IsTidy id body now c = record {
  status = valid-or_default is_valid_status (string_at (codes "status") body) _ refl c.status;
  priority =
      valid-or_default is_valid_priority (string_at (codes "priority") body) _ refl c.priority;
  name = valid-read_into is_clean_text (string_at (codes "name") body) empty-IsClean c.name;
  tags = valid-read_into is_clean_text (string_at (codes "tags") body) empty-IsClean c.tags;
  description =
      valid-read_into is_clean_text (string_at (codes "description") body) empty-IsClean
        c.description;
  repo_path =
      valid-read_into is_clean_text (string_at (codes "repo_path") body) empty-IsClean c.repo_path;
}

pub changed_row-IsTidy :
    (body : Json) (now : Bytes) (p : ProjectRow)
    → IsChecked body
    → IsTidy p
    → IsTidy (changed_row body now p)
unfolding changed_row get_field
changed_row-IsTidy body now p c h = record {
  status =
      valid-or_current is_valid_status (string_at (codes "status") body) p.status h.status c.status;
  priority =
      valid-or_current is_valid_priority (string_at (codes "priority") body) p.priority h.priority
        c.priority;
  name = valid-or_current is_clean_text (string_at (codes "name") body) p.name h.name c.name;
  tags = valid-or_current is_clean_text (string_at (codes "tags") body) p.tags h.tags c.tags;
  description =
      valid-or_current is_clean_text (string_at (codes "description") body) p.description
        h.description c.description;
  repo_path =
      valid-or_current is_clean_text (string_at (codes "repo_path") body) p.repo_path h.repo_path
        c.repo_path;
}
