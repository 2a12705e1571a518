-- ===== src/Lib.antt =====
-- The project tracker: an HTTP server in C++ that keeps projects and their files in SQLite. This
-- library models its own code and proves what makes the parts correct.
--
-- Base        shared helpers on Booleans, lists, maps and signed numbers
-- Text        src/utils/string_utils.cpp; a text is a list of bytes
-- Sanitizer   src/security/sanitizer.cpp: slugs, file names, extensions
-- Validator   src/security/validator.cpp: content types, checked parameters
-- RateLimiter src/security/rate_limiter.cpp: token buckets, bans, trusted proxies
-- Auth        src/security/auth.cpp: the API key, the session table, the cookie
-- Config      src/core/config.cpp: the .env file
-- Json        the JSON values that the program exchanges with nlohmann::json
-- Models      src/db/models.cpp: projects and files as JSON
-- Patch       the edit in the middle of ProjectDB::patchFile, src/db/database.cpp
-- Db          src/db/database.cpp: the two tables, and each method as a step on them
-- Http        src/http/middleware.cpp: the checks in front of every handler, headers, the access log
-- Logger      src/utils/logger.cpp: levels, streams, the rotation of files
-- Routes      src/routes/: the handlers for projects, files and the web pages
-- App         src/main.cpp: the settings, the loop of the main thread, a request from end to end
-- Browser     webui/js: new files, archiving, and the dialogue that edits a project
-- Tests       runs on small inputs, and the theorems at concrete ones
--
-- A request passes Http.before_handle, which asks the rate limiter; a handler of Routes asks Auth,
-- checks its input with Sanitizer and Validator, and calls Db. A function of the source keeps its
-- name, in the spelling of this library: `isValidSlug` is `is_valid_slug`. A method takes the
-- state of its object and returns the new one. Each method of the rate limiter, of the sessions
-- and of the database holds its mutex for its whole run, so threads interleave between calls only:
-- the theorems about histories of calls speak of every such order.
--
-- Every reading of the steady clock is an argument, in nanoseconds; a difference of readings stops
-- at 0. Where the source adds tokens in `size_t`, the sum wraps at 2 ^ 64. An `int` that JSON
-- holds is narrowed to 32 bits. Every loop is recursion on a list or on the loop's counter, so
-- none needs fuel; the loop of the main thread is a sequence of steps. The random bytes of a token
-- are an argument. Whether a statement of SQLite goes through or throws is a Boolean, and a
-- listing may throw behind any of its rows; LIKE and the orders of the listing are parameters, and
-- so are the parser and the printer of nlohmann::json, the file system of the web pages and
-- `std::to_string`. In Browser the server's answers, what a name becomes on its way through a URL,
-- and the controls of a page are parameters. The headers of an answer stand in the order in which
-- they are added; Crow keeps them by name. Characters are classified as in the C locale. A handler
-- makes one call that writes to the database, so that Routes takes a request as one step.
--
-- Db.Store says what the database promises: a store of projects by slug, each with its files by
-- name, which forgets rows, keys and the order of the tables. App.Loop puts the parts together:
-- its state is that of the main thread, the rate limiter, the sessions and the database, and a run
-- is any order of the main thread's steps, signals, and calls that the server's threads make of
-- the three. App.Serve is one writing request through middleware and handler, without another
-- thread in between.
--
-- Not modelled: the drawing of the pages and their events, the lines that the parts write to the
-- log, the registration of routes, the routing and the parsing of requests in Crow, its start and
-- its end, the storage of SQLite.
pub mod Base
pub mod Text
pub mod Logger
pub mod Sanitizer
pub mod RateLimiter
pub mod Auth
pub mod Json
pub mod Patch
pub mod Models
pub mod Db
pub mod Validator
pub mod Config
pub mod Http
pub mod Routes
pub mod App
pub mod Browser
pub mod Tests
