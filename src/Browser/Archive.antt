-- ===== src/Browser/Archive.antt =====
-- webui/js/projects.js: the button that archives a project or takes it back, and the list.
pub mod Hidden
use project_tracker.Base.{Bool, if◌then◌else◌, [], Bytes, bytes_eq, codes}
use project_tracker.Json.{Json, object, string, field, end}

-- `p.status !== 'archived' ? 'archived' : 'active'`
unfoldable pub new_status : (status : Bytes) → Bytes
new_status status = if bytes_eq status (codes "archived") then codes "active" else codes "archived"

-- The body of the PUT behind the confirmation.
unfoldable pub archive_body : (status : Bytes) → Json
unfolding new_status
archive_body status = object (field (codes "status") (string (new_status status)) end)

-- The parameter `status` of the list, by the box that shows archived projects.
abbrev pub list_status : (show_archived : Bool) → Bytes
list_status show_archived = if show_archived then codes "all" else []
