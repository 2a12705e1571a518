-- ===== src/Http/Access.antt =====
-- The log line of a request, at the end of `after_handle` in src/http/middleware.cpp. The name of
-- a method is Crow's; the URL and the milliseconds are those of the request.
use project_tracker.Base.{ℕ, ◌≡◌, [], ◌∷◌, ◌++◌, arith, leb, if◌then◌else◌, length, Bytes, codes}
use project_tracker.Logger.{LogLevel, info, warn, Logger, Output, rank, write_log, format_message}
use project_tracker.Http.{Method, Request, Response, SecurityMiddleware, is_options, client_ip_of}

-- `ctx.client_ip`, which `before_handle` leaves empty in a preflight.
unfoldable pub context_ip : SecurityMiddleware → Request → Bytes
context_ip m req = if is_options req.method then [] else client_ip_of m req

-- `print` is the formatting of a number by a stream.
unfoldable pub access_line :
    (method_name : Method → Bytes)
    → (print : ℕ → Bytes) → (client_ip : Bytes) → Request
    → (url : Bytes) → Response
    → (milliseconds : ℕ) → Bytes
access_line method_name print client_ip req url res milliseconds =
    client_ip
    ++ (codes " "
        ++ (method_name req.method
            ++ (codes " "
                ++ (url
                    ++ (codes " "
                        ++ (print res.code
                            ++ (codes " "
                                ++ (print (length res.body)
                                    ++ (codes "b " ++ (print milliseconds ++ codes "ms"))))))))))

abbrev pub access_level : ℕ → LogLevel
access_level code = if leb 400 code then warn else info

unfoldable pub log_access : Logger → (timestamp line : Bytes) → Response → Output → Output
log_access l timestamp line res o =
    write_log l timestamp (access_level res.code) (codes "[REQUEST] " ++ line) o

-- The line of an answer from 400 on goes to the standard output unless the logger's level is above
-- WARN; that of another answer, unless it is above INFO; and none goes to the error stream.
pub log_access-streams :
    (l : Logger) (timestamp line : Bytes) (res : Response) (o : Output)
    → ((log_access l timestamp line res o).err ≡ o.err)
      × ((log_access l timestamp line res o).out ≡ (
          if leb (rank l.current_level) (if leb 400 res.code then 2 else 1)
          then o.out
            ++ format_message timestamp (access_level res.code) (codes "[REQUEST] " ++ line) ∷ []
          else o.out))
unfolding log_access write_log
log_access-streams l timestamp line res o = ground arith
