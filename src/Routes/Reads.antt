-- ===== src/Routes/Reads.antt =====
-- What a file's GET answers after its PUT.
use project_tracker.Base.{
  ℕ, ◌≡◌, refl, Bool, true, false, ◌||◌, if◌then◌else◌, none, List, [], ◌∷◌, ◌≤◌, arith, Bytes,
  is_empty, length, codes, leb,
}
use project_tracker.Text.{contains_byte}
use project_tracker.Sanitizer.{is_valid_slug, is_valid_filename}
use project_tracker.Db.Files.{get_file, put_file}
use project_tracker.Db.Files.Laws.{all_through, get_file-put_file}
use project_tracker.Http.{Request, Response, json_error}
use project_tracker.Routes.{JsonText, Server, authorized}
use project_tracker.Routes.FileRoutes.{put_route, read_route, file_answer, plain_text, is_bad_name}
use project_tracker.Routes.Writes.{may_write}

-- A name that may be written may be read.
is_bad_name-valid :
    (allowed : List Bytes) (name : Bytes)
    → is_valid_filename allowed name ≡ true
    → (is_bad_name name || contains_byte name b'/') ≡ false
unfolding is_valid_filename is_bad_name
is_bad_name-valid allowed [] h = cc
is_bad_name-valid allowed (c ∷ s) h = ground arith

leb_of_le : {m n : ℕ} → m ≤ n → leb m n ≡ true
leb_of_le h = ground (arith, h)

-- Whether the write was done or not, the answer carries its database.
if_db :
    (ok : Bool) (x y : Server × Response) → x.0.db ≡ y.0.db → (if ok then x else y).0.db ≡ y.0.db
if_db true x y e = e
if_db false x y e = refl

-- A PUT that passes every check leaves the database that `putFile` makes.
db-put_route :
    (lib : JsonText) (srv : Server) (req : Request) (slug name : Bytes) (clock : ℕ) (now : Bytes)
    → may_write srv req clock ≡ true
    → is_valid_slug slug ≡ true
    → is_valid_filename srv.allowed_extensions name ≡ true
    → length req.body ≤ 10485760
    → (put_route lib srv req slug name clock now all_through).0.db
      ≡ (put_file srv.db all_through slug name req.body now).0
unfolding put_route authorized
db-put_route lib srv req slug name clock now auth s n size =
    rw (put_route, authorized, auth, s, n, leb_of_le size) (if_db _ _ _ refl)

read_route-content :
    (lib : JsonText) (print : ℕ → Bytes) (srv : Server) (req : Request) (slug name content : Bytes)
    → is_valid_slug slug ≡ true
    → (is_bad_name name || contains_byte name b'/') ≡ false
    → get_file srv.db all_through slug name ≡ content
    → req.param (codes "from") ≡ none
    → req.param (codes "to") ≡ none
    → read_route lib print srv req slug name all_through ≡ (
        if is_empty content
        then json_error lib.dump 404 (codes "file not found")
        else plain_text content)
unfolding read_route file_answer
read_route-content lib print srv req slug name content s n e f t =
    rw (read_route, s, n, e, file_answer, f, t)

-- A file that an authorised PUT has stored under a valid slug and a valid name is read back with
-- status 200 and exactly the bytes of the PUT; but an empty file is answered with 404, as if the PUT
-- had not happened. The PUT is one that `putFile` reports as done; the GET asks for no range.
pub read_route-put_route :
    (lib : JsonText) (print : ℕ → Bytes) (srv : Server) (req read : Request) (slug name : Bytes)
    (clock : ℕ) (now : Bytes)
    → may_write srv req clock ≡ true
    → is_valid_slug slug ≡ true
    → is_valid_filename srv.allowed_extensions name ≡ true
    → length req.body ≤ 10485760
    → (put_file srv.db all_through slug name req.body now).1 ≡ true
    → read.param (codes "from") ≡ none
    → read.param (codes "to") ≡ none
    → read_route lib print
        (put_route lib srv req slug name clock now all_through).0
        read
        slug
        name
        all_through
      ≡ (if is_empty req.body
          then json_error lib.dump 404 (codes "file not found")
          else plain_text req.body)
read_route-put_route lib print srv req read slug name clock now auth s n size done f t =
    read_route-content lib print _ read slug name req.body s
      (is_bad_name-valid srv.allowed_extensions name n)
      (rw (db-put_route lib srv req slug name clock now auth s n size)
        (get_file-put_file srv.db slug name req.body now done))
      f t
