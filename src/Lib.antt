-- ===== src/Lib.antt =====
-- The frag server: the backend of a chat program that stores encrypted fragments of messages and
-- hands them out over HTTP (backend/src).
--
-- The parts and how they interact. `HttpServer::handle_connection` asks the rate limiter, reads and
-- parses a request, finds its route and sends the text of the response. A route's handler checks
-- the Authorization header with `Auth::verify`, reads the body with a scanning JSON reader, calls
-- the fragment store and writes its answer as JSON. `load_config` gives the port, the tokens, the
-- limits and the path of the database.
--
-- Which file models which code:
--   Prelude, Dictionary      shared names, tests on numbers, lists, integers; std::map
--   Text, Text.Number        std::string: find, substr, comparison; stoll, stoull, stoi, printing
--   Utils                    backend/src/utils.hpp: Base64, UrlDecode, Split, Trim, Case, Uuid,
--                            JsonEscape
--   RateLimiter              backend/src/rate_limiter.hpp: `allow` and the table by address
--   Auth                     backend/src/auth.hpp: `verify`, `empty`
--   Http                     backend/src/server.hpp: HttpRequest, HttpResponse; `build_response`
--   Server.Receive           backend/src/server.cpp: the receive loop of `read_and_parse`
--   Server.Parse             the parsing part of `read_and_parse`
--   Server.Query             `parse_query`
--   Server.Pattern           `match_pattern`
--   Server.Message           requests as clients write them and responses as they read them, with
--                            the round trip through `read_and_parse`
--   Server.Lifecycle         `start` up to `running_ = true`, and `stop`, over the socket calls
--   Server.Lifecycle.Balance what the documented socket calls make of `start` and `stop`
--   Server.Connection        `add_route`, `handle_connection`: `dispatch` is its loop over the routes
--   Fragment, Database       backend/src/database.hpp and database.cpp
--     Database.Opening       when the constructor throws
--     Database.Interleaving  an insert with another thread between its step and the change counter
--     Database.Sqlite        the SQLite calls, a record of operations that everything above takes
--     Database.Operations    the functions of class Database
--     Database.Table         the abstract store: a list of rows and its operations
--     Database.Behaviour     the documented behaviour of SQLite, a record of laws
--     Database.Behaviour.Memory   a database in memory that has this behaviour
--   Json.Read, Json.Build    backend/src/handlers.cpp: json_read, json_build
--   Json.Grammar             JSON texts and what they denote, for what the builders write
--   Json.Members             objects as JSON.stringify writes them, for the reader
--   Handlers                 backend/src/handlers.cpp and handlers.hpp: handlers and route table
--   Handlers.Resource, Handlers.Api   the route table as a function of resource and method
--   Handlers.Answers         the bodies of all answers as JSON texts
--   Handlers.Delivery        a POST and then a list, for the handlers
--   Handlers.Body            the body that frontend/js/app.js sends, and what is read from it
--   Handlers.Storage         what requests do to the table, and which leave a row in it
--   App.Config               backend/src/main.cpp: `load_config`, with a written configuration for it
--                            (App.Config.Written) and its round trip
--   App.CommandLine          the arguments of `main`
--   App.StartUp              `main` up to its threads
--   App.Process              the main thread and the thread in `start` as steps on their flags
--   App.Cleanup              the loop of the clean-up thread
--   App.System               requests and rounds of the clean-up thread as steps
--   App.Delivery             a POST and then a list, from the bytes of one to the text of the other
--   Tests                    runs at concrete inputs
--
-- State and numbers. Text is a list of bytes, and the code's bytes are below 256; std::string::npos
-- is `none`. An int64_t or int is an integer, and reading a number is `none` where the C++ function
-- throws. A handler takes the connection to the database and the clock and returns them; an
-- exception of the store is a value of type Result. What recv delivers is a list of chunks. The
-- limiter's steady clock is a number of nanoseconds, and its count has no bound, where the int of the
-- source overflows after 2 ^ 31 calls of one address in a window. Calls of the limiter and of the handlers are
-- atomic; they come in the order of a list, or as the steps of a run in any order.
--
-- Bounds and fuel. The header loop and the token loop get as many rounds as there are bytes, and
-- each round moves its position forward. The loop over the rows of a query gets one round more than
-- the rows that SQLite can still deliver. The sum of the position and the declared length in the
-- receive loop wraps at 2 ^ 64, and the accumulator of the base64 decoder at 2 ^ 32.
--
-- Threads. `g_stop` and `running_` are shared, so main, the thread in `start` and the clean-up
-- thread are phases, with a step between two accesses of the shared variables; steps come in any
-- order. Sleeping and waiting in `accept` and `join` take no step.
--
-- Not modelled: the socket calls themselves, which are parameters, the receive timeout and the
-- Windows variants; printing, but for the warning about missing tokens; the random generator and
-- the system clock, whose values are arguments; the browser client in frontend; scripts and build
-- files. SQLite is a parameter.
pub mod Prelude
pub mod Text
pub mod Dictionary
pub mod Utils
pub mod RateLimiter
pub mod Auth
pub mod Http
pub mod Fragment
pub mod Database
pub mod Json
pub mod Server
pub mod Handlers
pub mod App
pub mod Tests
