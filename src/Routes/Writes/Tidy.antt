-- ===== src/Routes/Writes/Tidy.antt =====
-- What a history of writes through the handlers leaves in the fields of the projects.
use project_tracker.Base.{
  ℕ, ◌≡◌, sym, subst, Bool, not, Option, none, some, List, [], ◌∷◌, arith, Bytes, codes,
  Option-cases, if_cases, option_cases, inl, inr, length,
}
use project_tracker.Json.{Json, string_at}
use project_tracker.Models.{from_json}
use project_tracker.Sanitizer.{is_valid_slug}
use project_tracker.Validator.{is_body_size_valid}
use project_tracker.Db.{
  select_file, ProjectRow, Database, update_project_row, select_project, get_project_id_unlocked,
}
use project_tracker.Db.Calls.{Call, creates, updates, removes, puts, deletes, patches, step}
use project_tracker.Http.{Request}
use project_tracker.Routes.{JsonText, Server}
use project_tracker.Routes.ProjectRoutes.{
  post_project, put_project, create_from, update_from, field_error,
}
use project_tracker.Routes.Writes.{
  Write, posts, puts, deletes, puts_file, deletes_file, patches_file, handle, run,
}
use project_tracker.Routes.Writes.OneCall.{handle-IsTold}
use project_tracker.Routes.Writes.Outcomes.{call_of}
use project_tracker.Routes.Writes.Slugs.{Granted, refused-Granted, authorized-Granted}
use project_tracker.Routes.Writes.Fields.{field_error-IsChecked, new_row-IsTidy}
use project_tracker.Routes.Writes.Decent.{AreTidy, IsDecent, step-AreTidy}

-- What a body asks for is decent where its fields have been checked.
abbrev Decent : Option Call → Type 0
Decent o = (c : Call) → o ≡ some c → IsDecent c

Decent-some : (c : Call) → IsDecent c → Decent (some c)
Decent-some c d c' e = let same : c ≡ c' = cc in subst IsDecent same d

module _ (lib : JsonText) where
  create_from-Decent :
      (srv : Server) (body : Json) (o : Option Bytes) (now : Bytes) (io : Bool)
      → Granted
          (Decent (some (creates (from_json body) now io)))
          (create_from lib srv body o now io)
  unfolding create_from Granted
  create_from-Decent srv body none now io = refused-Granted lib _ srv 400 _ (omega arith)
  create_from-Decent srv body (some slug) now io =
      let P = Granted (Decent (some (creates (from_json body) now io))) in
      if_cases P (not (is_valid_slug slug)) _ _ (λ _. refused-Granted lib _ srv 400 _ (omega arith))
        λ _. elim (Option-cases (field_error body)) [
          | inl e ↦
              λ ok. Decent-some _ (λ id. new_row-IsTidy id body now (field_error-IsChecked body e))
          | inr (message, e) ↦ rw e (refused-Granted lib _ srv 400 message (omega arith))
        ]

  update_from-Decent :
      (srv : Server) (slug : Bytes) (body : Json) (now : Bytes) (io : Bool)
      → Granted (Decent (some (updates slug body now io))) (update_from lib srv slug body now io)
  unfolding update_from Granted
  update_from-Decent srv slug body now io = elim (Option-cases (field_error body)) [
    | inl e ↦ λ ok. Decent-some _ (field_error-IsChecked body e)
    | inr (message, e) ↦ rw (e, update_from) (refused-Granted lib _ srv 400 message (omega arith))
  ]

  post_project-Decent :
      (srv : Server) (req : Request) (clock : ℕ) (now : Bytes) (io : Bool)
      → Granted (Decent (call_of lib (posts req io) now)) (post_project lib srv req clock now io)
  unfolding post_project
  post_project-Decent srv req clock now io = authorized-Granted lib _ srv req clock _ λ s.
      let P = Granted (Decent (call_of lib (posts req io) now)) in
      if_cases P (not (is_body_size_valid (length req.body) 65536)) _ _
        (λ _. refused-Granted lib _ s 413 _ (omega arith))
        (λ _.
          option_cases P (lib.parse req.body) _ _ (refused-Granted lib _ s 400 _ (omega arith))
            (λ body e. rw e (create_from-Decent s body (string_at (codes "slug") body) now io)))

  put_project-Decent :
      (srv : Server) (req : Request) (slug : Bytes) (clock : ℕ) (now : Bytes) (io : Bool)
      → Granted
          (Decent (call_of lib (puts req slug io) now))
          (put_project lib srv req slug clock now io)
  unfolding put_project
  put_project-Decent srv req slug clock now io = authorized-Granted lib _ srv req clock _ λ s.
      let P = Granted (Decent (call_of lib (puts req slug io) now)) in
      if_cases P (not (is_valid_slug slug)) _ _ (λ _. refused-Granted lib _ s 400 _ (omega arith))
        λ _.
          if_cases P (not (is_body_size_valid (length req.body) 65536)) _ _
            (λ _. refused-Granted lib _ s 413 _ (omega arith))
            (λ _.
              option_cases P (lib.parse req.body) _ _ (refused-Granted lib _ s 400 _ (omega arith))
                (λ body e. rw e (update_from-Decent s slug body now io)))

  handle-Decent :
      (srv : Server) (w : Write) (clock : ℕ) (now : Bytes)
      → Granted (Decent (call_of lib w now)) (handle lib srv w clock now)
  unfolding handle Granted
  handle-Decent srv (posts req io) clock now = post_project-Decent srv req clock now io
  handle-Decent srv (puts req slug io) clock now = put_project-Decent srv req slug clock now io
  handle-Decent srv (deletes req slug io) clock now = λ ok. Decent-some (removes slug io) tt
  handle-Decent srv (puts_file req slug name io) clock now =
      λ ok. Decent-some (project_tracker.Db.Calls.puts slug name req.body now io) tt
  handle-Decent srv (deletes_file req slug name io) clock now =
      λ ok. Decent-some (project_tracker.Db.Calls.deletes slug name io) tt
  handle-Decent srv (patches_file req slug name io reads) clock now = λ ok c asked.
      elim (Option-cases (lib.parse req.body)) [
        | inl e ↦ let no : ◌≡◌ {A = Option Call} none (some c) = rw e at asked in absurd cc
        | inr (body, e) ↦
            let asks : some (patches slug name body now io) ≡ some c = rw e at asked in
            Decent-some (patches slug name body now io) tt c asks
      ]

  handle-AreTidy :
      (srv : Server) (w : Write) (clock : ℕ) (now : Bytes)
      → AreTidy srv.db
      → AreTidy (handle lib srv w clock now).0.db
  unfolding Granted
  handle-AreTidy srv w clock now h = elim (handle-IsTold lib srv w clock now) [
    | inl (ok, c, asked, after, done) ↦
        subst AreTidy (sym after)
          (step-AreTidy srv.db h c (handle-Decent srv w clock now ok c asked))
    | inr (n, same) ↦ subst AreTidy (sym same) h
  ]

  -- Under any history of writing requests, authorised or not, and whatever SQLite does, every
  -- stored project has a status and a priority of the lists that the source gives, and a name, tags,
  -- a description and a repo_path of at most 1024 bytes without a null byte or a control character
  -- other than tab, line feed and carriage return, if it was so before.
  pub run-AreTidy :
      (srv : Server) (ws : List (Write × ℕ × Bytes)) → AreTidy srv.db → AreTidy (run lib srv ws).db
  unfolding run
  run-AreTidy srv [] h = h
  run-AreTidy srv ((w, clock, now) ∷ ws) h =
      run-AreTidy (handle lib srv w clock now).0 ws (handle-AreTidy srv w clock now h)
