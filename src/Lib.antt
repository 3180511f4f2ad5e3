-- ===== src/Lib.antt =====
-- A zero-trust session gateway. A client logs in over TLS, asks for a session on a target service
-- and is then proxied to it. The session manager keeps the table of sessions, the security manager
-- limits and blocks addresses, the authorization manager decides who may use which service. Each
-- is an object whose methods lock its mutexes, and the worker threads call the cleanups.
--
-- The files, by the code that they model (paths from the repository's root):
-- - Common: equality tests, lists, maps as association lists, the 64-bit counters and the clock.
-- - Types: include/zerossg/types.ixx (roles, users, sessions, target services) and the `Result` of
--   include/zerossg/common.ixx. Utils and Events: src/types.cpp.
-- - Session: src/session/session_manager.cpp. Ids has the identifiers, Uniqueness their freshness,
--   Lifecycle, Limit, Queries and Duration the operations, Validity what each keeps of the table and
--   History the runs of the manager. View is the table without its order, as a quotient, and Order
--   what the calls make of two orders.
-- - Security: src/security/security_manager.cpp. RateLimit, BruteForce and Blocking treat the three
--   tables, Cleanup and Worker the cleanup thread.
-- - Rbac: src/rbac/authorizer.cpp. Defaults has the tables that the constructor builds, Superior the
--   hierarchy, Permissions (over Sets) and Services the two other tables.
-- - Proxy: src/proxy/proxy_manager.cpp. Table has the calls of the manager, Forwarding the handlers
--   of one connection, over Order, Settled what the table keeps and Listing what is listed.
-- - Auth: src/auth/authenticator.cpp. Users has the table and the login, Passwords the hashes, Tokens
--   the validation and the list of revoked tokens, State the record, Secrets the
--   signatures and Startup the constructor.
-- - Connection: src/network/connection.cpp. Requests has the ways in which a request ends, Handling
--   that there are no others, Protocol the state machine of a client, Effects and Sessions what the
--   requests do to the managers. Wire has the bytes and the coroutines, Delimiters and Framing how
--   the messages are cut, Silence what is never read or written.
-- - Config: src/config/config_manager.cpp. Parsing and Services read the JSON, Validation and
--   Addresses check it, Files, Saving and Store are the files, Keys the look-ups and Defaults the
--   constructor. Bounds, Loading, Required and RoundTrip have the theorems, and the modules Saved...
--   and Answers their lemmas; Laws is what is assumed of the JSON library and Sample an instance.
-- - Gateway: src/network/gateway_server.cpp. Runs has what sequences of its calls add up
--   to, Signals the handler of signals.
-- - Cli: src/cli/cli_interface.cpp. Trim, Checks, Emails and Words are the class CLIUtils and
--   parse_input, Tables is print_table and Columns its lines; Handlers has the start command over
--   Config and Gateway, and Starting its theorems; Actions has the other commands; History and Shell
--   are the class InteractiveShell and run, Keeping and Endings their ends. Main: src/main.cpp.
-- - Tls: src/tls/tls_handler.cpp. Loading has what initialize needs, Serving its part in Gateway.
-- - Logger: src/logging/logger.cpp. Messages has the lines of fields, Calls the sequences of calls and
--   Forging what a line tells apart.
-- - Web: src/web/web_server_impl.cpp. Pages has the texts, Serving the routes and the calls. Main:
--   src/web_main.cpp.
-- Each definition has the name of the method, type or constant that it models; a method's loop or
-- branch that has a definition of its own is named for what it does.
--
-- State and time. A method that changes its object takes and returns the record of the object's
-- fields. A `TimePoint` is a number of nanoseconds, and a call reads the clock once, as the
-- argument `now`; the clock itself is unconstrained but where a theorem orders two readings. The
-- mutexes are held for a whole call, so a call is one step and an interleaving is a sequence of
-- steps; a proxy that a handler stops takes two, since it unsets its flag before it locks the table.
-- Counters of `size_t` wrap at 2 ^ 64.
--
-- Fuel. `fresh_id` repeats the search for an unused identifier on fuel, since a generator may never
-- leave the identifiers in use; one unit more than there are sessions is enough if the identifiers
-- drawn differ. `superior_at` and `inferior_at` take the depth of the recursion: two is enough,
-- since the second call finds the mutex locked. `shell_lines` takes one unit more than there are
-- lines of input: each round reads a line, also in a shell that is opened in a shell.
--
-- Parameters. The values of the random generator are a function from their position. Whether
-- Boost.Asio's `make_address` reads a host is a function from the host. `External` (Auth) has what
-- the authentication takes from OpenSSL and the JSON library; its `sign` is the signature where
-- the code returns one, and Secrets has the code of the signature over the calls of `Hmac`.
-- `RequestJson` (Connection) is the member access of a parsed request, `Peer` what Boost.Asio
-- answers on a connection. `Json` and `Platform` (Config) are nlohmann::json and yaml-cpp, and
-- which files can be opened. `Network` (Gateway) is how the calls of Boost.Asio end. `Ssl` (Tls)
-- is what Boost.Asio and OpenSSL answer, `Sockets` (Web) what the sockets do. `Undeclared` (Cli)
-- has start_server and stop_server, which the commands call and no file declares. A console holds
-- the lines that the user will type and the states that a running server will pass through.
--
-- Not modelled: the texts of most messages (an error is a constructor named after its constant),
-- which sink of spdlog writes a line, the bytes that a proxy moves, and the threads themselves. Of
-- the command line: a build without readline, the progress line and the spinner, and
-- clear_history, which calls itself without end. LoggerManager and the HTTP loop of the web server
-- are declared without a body.
pub mod Common
pub mod Types
pub mod Session
pub mod Security
pub mod Rbac
pub mod Auth
pub mod Proxy
pub mod Connection
pub mod Config
pub mod Gateway
pub mod Cli
pub mod Web
pub mod Tls
pub mod Logger
