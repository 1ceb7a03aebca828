-- ===== src/Lib.antt =====
-- Verification of 1tube, a gateway that serves edge functions: src/ of the repository, TypeScript.
--
-- A request to the gateway passes the authentication, the rate limiter and the supervisor before
-- the function runs: `Server.Pipeline.begin_request` composes them over the registry of the
-- functions. The limiter takes a function's name from the path by the route prefix, and its limit
-- and key strategy from the function's manifest; the supervisor takes the thresholds of its circuit
-- breaker from the same manifest. The function host boots the functions, and says to a request for
-- one that is not loaded whether to wait. On a change of a file the hot reloader asks the dependency
-- graph which functions to reload, and has the function host queue them
-- (`HotReloader.flush_paths` composes the three, and `HotReloader.Served` follows a change up to the
-- instance that requests find).
--
-- Parts, each with the file of the code that it models:
--   Common        texts (lists of code units), lists and JavaScript's `Map` (JsMap: an association
--                 list in insertion order, where setting a present key keeps its place)
--   Manifest      src/manifest.ts: `parseManifest`, `mergeServeRateLimit`, `loadManifest`
--   Supervisor    src/supervisor.ts: the class `FunctionSupervisor`, one function for each method,
--                 which returns the new record of the two maps beside its result
--   Gateway.RoutePrefix, Gateway.RateLimit, Gateway.Auth, Gateway.Cors, Gateway.BodyWatchdog
--                 src/gateway/route-prefix.ts, rate-limit.ts, auth.ts, cors.ts and
--                 body-watchdog.ts. The variables of a module are an argument and a result
--   DepGraph      src/backends/bun/dep-graph.ts: the walk over the imports, the graphs by name and
--                 the reverse index; `Parse` for `classify` and `parseFile`, and
--                 `Parse.Batch` for `refreshMany` over the cache
--   Compat.Specifiers
--                 src/compat/specifiers.ts: `npm:` and `jsr:` specifiers
--   Compat.ImportMap
--                 src/compat/import-map.ts: the target of a specifier; `Keys` for
--                 `importMapKeys`, and `Jsonc` for `stripJsonc`
--   Watchdog      src/backends/workerd/watchdog.ts: the sampling of the resident set, cut at its
--                 awaits into `begin`, `resume` and `settle`
--   Debouncer     src/backends/bun/hot-reloader.ts: `createReloadDebouncer`, with its timer and the
--                 end of a flush as steps
--   HotReloader   src/backends/bun/hot-reloader.ts: `computeAffected` and what a flush reloads
--   LogBuffer     src/log-buffer.ts: the class `StreamBuffer` over a stream that cuts its writes
--   Registry      src/registry.ts: `FunctionRegistry`, with `getOrLoad` cut at its import
--   Server        src/server.ts: a request until a function is called (`Pipeline`, `Dispatch`,
--                 `Workerd`), the end of the call and the replies
--   EnvFile       src/env-file.ts: `parseEnvFile`, and `Sync` for `applyEnvFiles`
--   Edge          src/edge.ts: the router of `serve()`: `Paths`, `Router` for `findRoute`, `Fetch` for
--                 `createFetchHandler`
--   LogWriter     src/logs/writer.ts: the queue, the flush and the counters of `createLogWriter`
--   FunctionHost  src/backends/bun/function-host.ts: the boot states of the functions with their
--                 claims, spawns and waiters; `Reload` for `reload`, `stop` and `bootStatus`
--   Capnp         src/backends/workerd/capnp.ts: `generateCapnp`, its checks and routes in
--                 `check_config` and its text in `Render`
--   LogQuery      src/logs/query.ts: the statements and pages of `queryInvocations` and `searchLogs`,
--                 and `Fts` for `buildFtsMatch`
--
-- Numbers are natural numbers and exact ratios where the code has doubles: times are whole
-- milliseconds, and quotients that the code rounds are rounded from the exact value, but for the
-- refill of the rate limiter, which is rounded as doubles are (`Gateway.RateLimit.Double`). The
-- clock, the environment, the file system, `JSON.parse`, `JSON.stringify`, Web Crypto and `atob`
-- are arguments or parameters, as are `new URL`, `decodeURIComponent`, the members of
-- `Object.prototype`, Unicode's classes of characters and the database of the logs.
--
-- An asynchronous function is cut at its awaits (Gateway.Auth, Watchdog, Debouncer, Registry,
-- Server, FunctionHost), so that what others do meanwhile is a sequence of steps; a flush of
-- HotReloader and a refresh of DepGraph are one step each. Loops are structural recursion, but for
-- the walk of DepGraph, whose fuel is one round more than there are files to find (each round but
-- the last finds one), its `classify`, which follows an alias at most five times as the code does,
-- the two eviction loops of Gateway.Auth, whose fuel is the number of entries (each round removes
-- one), the loop of LogBuffer, whose fuel is the number of bytes (each round writes one), and the two
-- loops of Gateway.RateLimit.Double, which double a number that is below 2 ^ 53 until it has the bits
-- of a double or more (70 and 64 rounds are enough).
--
-- Not modelled: the boot, the flags and the shutdown of the server and its internal endpoints
-- (src/server.ts), the OpenAPI document (src/edge.ts), the other parts of the function host and of
-- the workerd backend, the Vercel backend, the bundler, the command line and the schema and pruning
-- of the logs, which are mostly calls of Bun, Hono, esbuild, workerd and SQLite.
pub mod Common
pub mod Capnp
pub mod Compat
pub mod Debouncer
pub mod DepGraph
pub mod Edge
pub mod EnvFile
pub mod FunctionHost
pub mod Gateway
pub mod HotReloader
pub mod LogBuffer
pub mod LogQuery
pub mod LogWriter
pub mod Manifest
pub mod Registry
pub mod Server
pub mod Supervisor
pub mod Watchdog
