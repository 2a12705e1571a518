-- ===== src/Logger/Levels.antt =====
-- Which messages reach the streams.
use project_tracker.Base.{
  ◌≡◌, Bool, List, [], ◌∷◌, ◌++◌, append_assoc, append-nil, sym, ◌∙◌, ◌&&◌, ap, arith, leb,
  if◌then◌else◌, Bytes, keep, not, map,
}
use project_tracker.Logger.{LogLevel, error, rank, Logger, Output, write_log, format_message}

-- A message with its time.
pub record Message : Type 0 where
  pub timestamp : Bytes
  pub level : LogLevel
  pub text : Bytes

unfoldable pub write_all : Logger → List Message → Output → Output
write_all l [] o = o
write_all l (m ∷ ms) o = write_all l ms (write_log l m.timestamp m.level m.text o)

abbrev pub line : Message → Bytes
line m = format_message m.timestamp m.level m.text

abbrev pub is_logged : Logger → Message → Bool
is_logged l m = leb (rank l.current_level) (rank m.level)

abbrev pub is_error : Message → Bool
is_error m = leb (rank error) (rank m.level)

append_cons : (xs : List Bytes) (y : Bytes) (ys : List Bytes) → (xs ++ y ∷ []) ++ ys ≡ xs ++ y ∷ ys
append_cons xs y ys = append_assoc xs (y ∷ []) ys

map_kept :
    (t : Message → Bool) (m : Message) (ms : List Message)
    → (if t m then line m ∷ map line (keep t ms) else map line (keep t ms))
      ≡ map line (keep t (m ∷ ms))
map_kept t m ms = ground arith

-- One message goes to at most one stream: to the error stream from `error` on, to the standard
-- output below it, and to none below the logger's level.
write_log-out :
    (l : Logger) (m : Message) (ms : List Bytes) (o : Output)
    → (write_log l m.timestamp m.level m.text o).out ++ ms
      ≡ o.out ++ (if is_logged l m && not (is_error m) then line m ∷ ms else ms)
unfolding write_log
write_log-out l m ms o = ground (arith, append_cons o.out (line m) ms)

write_log-err :
    (l : Logger) (m : Message) (ms : List Bytes) (o : Output)
    → (write_log l m.timestamp m.level m.text o).err ++ ms
      ≡ o.err ++ (if is_logged l m && is_error m then line m ∷ ms else ms)
unfolding write_log
write_log-err l m ms o = ground (arith, append_cons o.err (line m) ms)

-- Over any messages, the standard output gets, in their order, the lines of those that are at the
-- logger's level or above it and below `error`; the error stream gets those of `error` and `fatal`,
-- unless the logger's level is above theirs.
pub write_all-streams :
    (l : Logger) (ms : List Message) (o : Output)
    → ((write_all l ms o).out
        ≡ o.out ++ map line (keep (λ m. is_logged l m && not (is_error m)) ms))
      × ((write_all l ms o).err ≡ o.err ++ map line (keep (λ m. is_logged l m && is_error m) ms))
unfolding write_all
write_all-streams l [] o = (sym (append-nil o.out), sym (append-nil o.err))
write_all-streams l (m ∷ ms) o =
    let (outs, errs) = write_all-streams l ms (write_log l m.timestamp m.level m.text o) in
    (
      outs
          ∙ (write_log-out l m _ o
              ∙ ap (λ t. o.out ++ t) (map_kept (λ n. is_logged l n && not (is_error n)) m ms)),
      errs
          ∙ (write_log-err l m _ o
              ∙ ap (λ t. o.err ++ t) (map_kept (λ n. is_logged l n && is_error n) m ms)),
    )
