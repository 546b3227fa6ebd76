-- ===== src/Lib.antt =====
-- sqlgate: a gateway between people and databases. A user submits a query, sees a preview of it, asks
-- for approval; another person approves or rejects it; an approved query is executed. This library
-- models the server and shows what its approval workflow guarantees.
--
-- The parts, by the files of the repository:
--
-- Http/Request, Http/Query, Http/Response and Http/Router model src/http/request.rs, response.rs and
-- router.rs: `parse` on the bytes that a connection delivers, `parse_form`, the `Response` constructors
-- and `write`, `Router::add` and `route`. A line is read from a `Stream`, the bytes that arrive before
-- the peer closes or a read fails. Http/Request/Printing has the bytes of a request as a client prints it.
-- Auth models src/auth/cf_access.rs.
-- Server/Connection models `handle_connection` and the routes of `main` in src/main.rs, Server/Handlers
-- and its children the handlers there. A handler answers with an optional response; none is a panic,
-- which is answered with status 500.
-- Preview/Validator, Preview/Wrapper and Preview/Engine model src/preview, Targets models src/targets,
-- Execute/Hash and Execute/Engine model src/execute, StaticFiles models src/static_files.rs, and
-- Templates models src/templates.rs, with the markup in its private children. Preview/Validator/Stripping
-- says what the comments of a query are without the loop that removes them.
-- Db and its children model src/db and db/schema.sql. A statement is a function of the five tables, under
-- the constraints of the schema. A call of the database may fail before its statement or after it
-- (`Fault`); what follows is what the source does, which drops many of these errors.
-- Text, Map and Json hold what the source uses of Rust's strings, maps and serde_json. Prelude holds
-- what all modules share.
-- Workflow states what any handler may do as a step relation (`Change`), shows that each handler and each
-- connection is a sequence of such steps, and derives the invariants from the relation.
-- Workflow/Gate is an abstract machine that the workflow refines: tickets and what is sent.
-- Threads models `thread::spawn` and the accept loop of `main`: Threads/Pipelines, Threads/Handlers and
-- Threads/Connections give the pipelines, the handlers and `handle_connection` again as tasks, which act
-- on the world one call at a time (a call of the database, a query or a transaction on a target, a
-- reading of the clock), Threads/Alone compares a task that is not interrupted with the function, and
-- Threads/Server has the moves of the loop and the turns of the threads. A history of worlds
-- (Threads/History) records what a thread may have read earlier. A call is one indivisible act.
-- Tests tries the theorems on a small host, runs three connections from a preview to an execution, and
-- mixes an approval, an execution and a signal. Tests/Source has the unit tests of the source files, and
-- runs them on the model.
--
-- What surrounds the program is a parameter (`Host`): the environment's variables, SHA-256, the parser
-- and printer of UUIDs, the clock, the file system, the target databases, the database server's faults,
-- clock and identifiers. Where the surroundings may answer differently from one call to the next, they
-- are functions of the number of database calls made so far. The case mapping of characters from U+0100
-- on is a parameter too.
--
-- Bounds: the header loop has one more unit of fuel than there are bytes, the removal of comments as many
-- as bytes; theorems show that more changes nothing. Identifiers and times are natural numbers,
-- times in nanoseconds, also in the tables, where Postgres keeps microseconds; `rows as i32` and
-- `duration as i32` wrap.
--
-- Not modelled: the registration of the signal handlers, the binding of the listener, logging, the
-- connection of the pool. The theorems on `serve_all` are about connections that are served one after
-- another, those on `run_server` about threads that take turns in any order. `HashMap` is an
-- association list, since the program never iterates over one.
pub mod Prelude
pub mod Text
pub mod Map
pub mod Json
pub mod Db
pub mod Host
pub mod Auth
pub mod Http
pub mod Templates
pub mod Fetch
pub mod Targets
pub mod Execute
pub mod Preview
pub mod StaticFiles
pub mod Server
pub mod Workflow
pub mod Tests
pub mod Threads
