-- ===== src/Browser.antt =====
-- webui/js/app.js: what the pages make of the server's answers. A text is a list of code units;
-- where all are ASCII, they are the bytes of a request.
pub mod Editor
pub mod Forms
pub mod Archive
use project_tracker.Base.{
  Bool, true, false, not, ◌&&◌, Option, none, some, if◌then◌else◌, leb, ◌==◌,
}
use project_tracker.Http.{Response}

-- `res.ok`
abbrev pub is_ok : Response → Bool
is_ok res = leb 200 res.code && leb res.code 299

-- The answer of `fetch`, which is `none` where it throws; an answer 401 leads to the login page.
unfoldable pub api : Option Response → Option Response
api none = none
api (some res) = if res.code == 401 then none else some res

-- `!res || !res.ok`
abbrev pub is_missing : Option Response → Bool
is_missing none = true
is_missing (some res) = not (is_ok res)
