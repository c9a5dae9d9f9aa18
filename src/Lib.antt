-- ===== src/Lib.antt =====
-- A verification library for the gateway: models of its code, and theorems about them.
--
-- The program is an HTTP gateway. A session (`src/http/client_session.hpp`) reads a request, parses
-- its headers (`src/http/http_protocol.hpp`), has it checked (`src/security/security_rules.hpp`) and
-- answers it, from a local handler or from an upstream service; the answer is written by
-- `src/http/response_builder.hpp`, with the headers of `src/http/cors.hpp`. Counters that threads
-- share decide when the process may stop and how much work is in flight. All of it is set up from
-- ini files (`src/common/config.hpp`). A change of the configuration builds new rules, which are
-- pure functions of the configured items here.
--
-- Which file models what:
-- - Prelude and its children: text as lists of bytes, lists, outcomes, and what the source uses of the
--   C++ library (`std::isspace` and `std::tolower` in the C locale, trimming, splitting, `std::stoi`).
-- - Config: `src/common/config.hpp`. `load_lines` is the loop of `load_file`, over the lines that
--   `std::getline` gives; `load` sorts the files of the directory and stops at the first bad one.
-- - Security/Path: `src/security/path_normalize.hpp`; `decode_loop` is the loop of `percent_decode`,
--   `split_segments` and `assemble` the two halves of `normalize_path`.
-- - Security/Whitelist: `src/security/auth_whitelist.hpp`. Security/PathRules:
--   `src/security/path_blacklist.hpp` and `principal.hpp`; Security/Longest is the sorting.
-- - Security/Address: `src/security/real_ip.hpp`, `cidr.hpp`, `ip_blacklist.hpp`.
-- - Security/Jwt: `src/security/jwt_auth.hpp`, where an exception is `none`.
-- - Security/Chain: `SecurityRules::check_snapshot`, one function for each stage, in the order of the
--   source; `Request` holds its arguments, `Snapshot` the rules.
-- - Security/RateLimit: `src/security/rate_limiter.hpp`. A shard is used under its mutex, so that
--   Keys, Recent, Checks and Runs take its operations as functions; RateLimit/Global has the shared
--   bucket, whose atomic operations interleave; RateLimit/Limits is `RateLimiter` itself, `check_all`
--   included, and RateLimit/Chained puts it into the chain. RateLimit/Snapshot is the snapshot file.
--   `none` stands for undefined behaviour there, and the theorems show that it does not come up.
-- - Http/Numbers and Http/Headers: `src/http/http_protocol.hpp`. Http/Context:
--   `src/http/http_context.hpp`. Http/Cors: `src/http/cors.hpp`. Http/Response:
--   `src/http/response_builder.hpp`. Http/Body: `src/http/http_body_reader.hpp`, where the socket is the
--   list of the reads that it will answer, an error being one of them. Http/Json:
--   `src/http/response.hpp`, with a reader of JSON strings to state what the escaping is for.
--   Http/JsonKeys: `src/http/json_transform.hpp`, its loop with the stack of scopes as a list.
-- - Lifecycle: `src/common/shutdown_coordinator.hpp` (Sessions), `src/http/route_lifecycle.hpp`
--   (Handlers), `src/app/combo_query_limiter.hpp` (Combo), `HttpConnectionBudget` of
--   `src/http/http_pool.hpp` and `src/common/process_fd_budget.hpp` (Budget), and `HttpPool` itself
--   (Pool), where a section under a mutex is one step too. Lifecycle/Threads is the frame: any number
--   of threads that interleave, a step being one atomic operation of one of them.
-- - Admin: the requests that `src/app/admin/config_admin_parse.cpp` reads. Admin/Json is its
--   `JsonReader`, with `pos_` as the text that is left, and Admin/Values has what it skips. Requests and
--   Versions have the requests, of which the loops over members are one function here, `object_loop`.
-- - Tests: the theorems at concrete inputs.
--
-- Numbers are unbounded except where the source tests a bound: sizes are tested against 2 ^ 64 - 1,
-- `int` against 2 ^ 31, `int64_t` against 2 ^ 63, and a counter that is subtracted from wraps at 2 ^
-- 64. Additions to a counter are not wrapped, since there are fewer than 2 ^ 64 threads. All loops
-- are recursion on their input, but for `to_string`, which has fuel for twenty digits, enough for 64
-- bits, the chunk reader, whose fuel is the number of bytes that the connection will bring, plus
-- one, and the loops of `JsonReader`, which have the bytes that are left, `skip_value` twice as many
-- plus one; there, running out is a value of its own. Atomics are sequentially consistent here.
-- Where threads share several counters, as in `HttpPool`, each theorem is about the one or the shard
-- that it names.
--
-- Parameters, because their code is not the repository's own: addresses (`AddressLib`, of asio), token
-- decoding and signatures (`JwtLib`, of jwt-cpp and OpenSSL). `double` has no model in the language of
-- these proofs: `Doubles` is a parameter too, and so is `std::hash`. `Limiter` is the rate limiter as
-- the chain uses it.
--
-- Not modelled: sockets, coroutines and timers, the text of log lines and of exceptions, floating
-- point values, the pools of database connections, upstream routing, the rest of the administration
-- and the synchronization of configurations.
pub mod Prelude
pub mod Config
pub mod Security
pub mod Http
pub mod Lifecycle
pub mod Admin
pub mod Tests
