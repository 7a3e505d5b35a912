-- ===== src/Lib.antt =====
-- ip_server: an HTTP service that answers IP and MAC lookups from local databases.
--
-- The program's parts: `main` builds the lookup services over the databases, each with a sharded
-- cache, and hands them to the HTTP server; the server authenticates a request, finds the client's
-- address, asks the rate limiter, validates the query and calls the service.
--
-- Base, Base/Tests, Base/Int, Base/Lists, Base/Text: the shared names; the C++ integer types, lists
--   and `std::string` as the list of its bytes.
-- Store/Dict, Store/NodeList, Store/Linked: `std::unordered_map` as an association list,
--   `std::list` with the identity of its nodes, so that an iterator can dangle, and the shape that
--   the rate limiter and the cache share: a map whose values point into a list of its keys.
-- Store/Lifetimes and its children, Store/Counted: objects that own what a library has open, over
--   any sequence of declarations, moves and destructions; the two database classes are instances.
-- RateLimiter and its children: src/rate_limiter.h, src/rate_limiter.cpp. Each method is a function
--   of the limiter and the clock readings that the method makes.
-- Cache and its children: src/cache.h. `CacheShard` in Cache, `IPCache` in Cache/Sharded.
--   `evict_if_needed` runs on fuel, a round for each node of the list and one more, since each round
--   takes a node off the list.
-- Base/Trim: trimming as src/auth.cpp and src/http_server.cpp do it.
-- Validation and its child: src/validation.cpp. Json: what the program uses of the JSON library.
-- MacDatabase and its children: src/mac_database.cpp, with SQLite as the answer to a query;
--   MacDatabase/Handles: the constructor, the destructor and the moves of `OUIDatabase`, over what
--   SQLite has open.
-- MaxMind and its children: src/database; MaxMind/Handles: the same of `MaxMindDatabase`.
-- Service and its children: src/service, a database behind a cache.
-- Auth and its children: src/auth.cpp, with SHA256 as a parameter.
-- Base/Decimal and its child: `std::stoi` and `std::to_string`. Base/Real: the operations on
--   `double` that the program uses, with the laws of its order.
-- Metrics and its children: src/metrics.cpp: the recording operations, and the statistics.
-- Paths and its child: src/paths.cpp. Config, Config/Validate, Config/Stored, Config/Overrides,
--   Config/Options: the record of src/config.h; `validate`, `from_json`, the object of
--   `save_to_file`, `apply_cli_overrides` and the option table of src/config.cpp. Config/Files and
--   its children: `load_from_file`, `save_to_file`, `handle_config_file` and `parse`, over a file
--   system with a state.
-- Http: the state of `IPGeoHTTPServer`, its constructor and setters, src/http_server.cpp;
--   Http/Gate: what a request passes first; Http/Lookup: `handle_lookup_get`; Http/Batch:
--   `handle_lookup_post`, where what `std::async` makes of a list of queries is a parameter;
--   Http/Pages: `handle_root` and `handle_health`; Http/Routes: `setup_cors` and `setup_routes`, and
--   sequences of calls; Http/Lifecycle: `start`, `start_server_and_wait`, `stop` and
--   `cleanup_thread_func` as the steps of three threads, in any order.
-- Password and its children: src/password_generator.cpp, with the numbers drawn as a parameter.
-- PasswordHandler and its children: src/password_handler.cpp.
-- Application and its children: src/main.cpp, from the command line to the running server;
--   Application/Services: the two services as the handlers of the server, with their caches.
-- Tests: runs at small inputs.
--
-- Undefined behaviour is the result `none`. The mutexes of the limiter and of each shard are held
-- over a whole call, so calls are sequential. Log lines have no effect on the state and are left
-- out. The JSON library and `std::hash` are parameters.
-- Not modelled: the log lines and the set-up of logging, and the HTTP library's own answers, such
-- as the one to a path without a route. The directories are created before the server starts, which
-- `main` leaves out here.
pub mod Base
pub mod Store
pub mod RateLimiter
mod Tests
pub mod Cache
pub mod Validation
pub mod Json
pub mod MacDatabase
pub mod Application
pub mod Auth
pub mod Metrics
pub mod MaxMind
pub mod Service
pub mod Config
pub mod Password
pub mod PasswordHandler
pub mod Paths
pub mod Http
