-- ===== src/Routes/Writes/Outcomes.antt =====
-- What the status of a writing handler says of the call that the request asks for.
use project_tracker.Base.{
  option_cases, ◌≢◌, sym, ◌∙◌, arith, true, false, is_empty, ℕ, ◌≡◌, ◌⊎◌, inl, inr, refl, ap, Bool,
  not, Option, none, some, Bytes, if_cases,
}
use project_tracker.Json.{Json}
use project_tracker.Models.{from_json}
use project_tracker.Sanitizer.{is_valid_slug}
use project_tracker.Db.{Database}
use project_tracker.Db.Calls.{Call, creates, updates, removes, puts, deletes, patches, step}
use project_tracker.Db.Calls.Failures.{step-false}
use project_tracker.Db.Files.{get_file}
use project_tracker.Http.{Response, json_error, json_success}
use project_tracker.Routes.{JsonText, Server, written, refuse}
use project_tracker.Routes.ProjectRoutes.{create_from, update_from, field_error}
use project_tracker.Routes.FileRoutes.{patch_from, patched}
use project_tracker.Routes.Writes.{
  Write, posts, puts, deletes, puts_file, deletes_file, patches_file,
}

-- The call that a request asks for, if its body can be read.
abbrev pub of_body : Option Json → (Json → Call) → Option Call
of_body none c = none
of_body (some body) c = some (c body)

abbrev pub call_of : JsonText → Write → (now : Bytes) → Option Call
call_of lib (posts req io) now =
    of_body (lib.parse req.body) (λ body. creates (from_json body) now io)
call_of lib (puts req slug io) now = of_body (lib.parse req.body) (λ body. updates slug body now io)
call_of lib (deletes req slug io) now = some (removes slug io)
call_of lib (puts_file req slug filename io) now = some (puts slug filename req.body now io)
call_of lib (deletes_file req slug filename io) now = some (deletes slug filename io)
call_of lib (patches_file req slug filename io reads) now =
    of_body (lib.parse req.body) (λ body. patches slug filename body now io)

-- Status 200 for a call that is done, and another status for an unchanged database.
abbrev pub IsTold : Database → Option Call → Database → (code : ℕ) → Type 0
IsTold before asked after code =
    ((code ≡ 200)
      × (c : Call) × (asked ≡ some c)
      × (after ≡ (step before c).0)
      × ((step before c).1 ≡ true))
    ⊎ ((code ≢ 200) × (after ≡ before))

unfoldable pub Did : Server → Option Call → Server × Response → Type 0
Did s asked r =
    (r.0.auth ≡ s.auth)
    × (r.0.allowed_extensions ≡ s.allowed_extensions)
    × IsTold s.db asked r.0.db r.1.code

module _ (lib : JsonText) where
  pub refused :
      (s : Server) (asked : Option Call) (code : ℕ) (message : Bytes)
      → code ≢ 200
      → Did s asked (refuse lib s code message)
  unfolding Did json_error
  refused s asked code message n = (refl, refl, inr (n, refl))

  -- The outcome of a call under its answer.
  done :
      (s : Server) (asked : Option Call) (db : Database) (res : Response) (c : Call)
      → asked ≡ some c
      → (db, true) ≡ step s.db c
      → res.code ≡ 200
      → Did s asked (record s { db = db }, res)
  unfolding Did
  done s asked db res c a e k = (refl, refl, inl (k, c, a, ap (λ r. r.0) e, sym (ap (λ r. r.1) e)))

  failed :
      (s : Server) (asked : Option Call) (db : Database) (res : Response) (c : Call)
      → (db, false) ≡ step s.db c
      → res.code ≢ 200
      → Did s asked (record s { db = db }, res)
  unfolding Did
  failed s asked db res c e n =
      (refl, refl, inr (n, ap (λ r. r.0) e ∙ step-false s.db c (sym (ap (λ r. r.1) e))))

  pub written-Did :
      (s : Server) (asked : Option Call) (r : Database × Bool) (text message : Bytes) (c : Call)
      → asked ≡ some c
      → r ≡ step s.db c
      → Did s asked (written lib s r text message)
  unfolding json_error json_success
  written-Did s asked (db, true) text message c a e = done s asked db _ c a e refl
  written-Did s asked (db, false) text message c a e = failed s asked db _ c e (omega arith)

  patched-Did :
      (s : Server) (asked : Option Call) (r : Database × Bool) (slug filename : Bytes)
      (reads : ℕ → Bool) (c : Call)
      → asked ≡ some c
      → r ≡ step s.db c
      → Did s asked (patched lib s r slug filename reads)
  unfolding patched json_error json_success
  patched-Did s asked (db, true) slug filename reads c a e = done s asked db _ c a e refl
  patched-Did s asked (db, false) slug filename reads c a e =
      if_cases (Did s asked) (is_empty (get_file db reads slug filename)) _ _
        (λ _. failed s asked db _ c e (omega arith)) (λ _. failed s asked db _ c e (omega arith))

  pub create_from-Did :
      (s : Server) (asked : Option Call) (body : Json) (slug : Option Bytes) (now : Bytes)
      (io : Bool)
      → asked ≡ some (creates (from_json body) now io)
      → Did s asked (create_from lib s body slug now io)
  unfolding create_from step
  create_from-Did s asked body none now io a = refused s asked _ _ (omega arith)
  create_from-Did s asked body (some slug) now io a =
      if_cases (Did s asked) (not (is_valid_slug slug)) _ _
        (λ _. refused s asked 400 _ (omega arith))
        λ _.
          option_cases (Did s asked) (field_error body) _ _
            (written-Did s asked _ _ _ (creates (from_json body) now io) a refl)
            (λ message _. refused s asked 400 message (omega arith))

  pub update_from-Did :
      (s : Server) (asked : Option Call) (slug : Bytes) (body : Json) (now : Bytes) (io : Bool)
      → asked ≡ some (updates slug body now io)
      → Did s asked (update_from lib s slug body now io)
  unfolding update_from step
  update_from-Did s asked slug body now io a =
      option_cases (Did s asked) (field_error body) _ _
        (written-Did s asked _ _ _ (updates slug body now io) a refl)
        (λ message _. refused s asked 400 message (omega arith))

  pub patch_from-Did :
      (s : Server) (asked : Option Call) (slug filename : Bytes) (body : Json) (op : Option Bytes)
      (now : Bytes) (io reads : ℕ → Bool)
      → asked ≡ some (patches slug filename body now io)
      → Did s asked (patch_from lib s slug filename body op now io reads)
  unfolding patch_from step
  patch_from-Did s asked slug filename body none now io reads a = refused s asked _ _ (omega arith)
  patch_from-Did s asked slug filename body (some op) now io reads a =
      patched-Did s asked _ slug filename reads (patches slug filename body now io) a refl
