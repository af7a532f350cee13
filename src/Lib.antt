-- ===== src/Lib.antt =====
-- A model of the AI router, an HTTP proxy that authenticates requests to language models, limits
-- their rate, and hands each one to an endpoint of the model, another one when that fails.
--
-- The parts, and how they interact:
-- * Config (src/config/types.rs): the structures of the configuration, with `resolve_token`,
--   `token_has_model_access`, `find_model` and `canonical_model_name`. Config/Loader
--   (src/config/loader.rs): `load_config`. Config/Watcher (src/config/watcher.rs): `watch_config`.
-- * Auth (src/auth/middleware.rs): the context that a request gets from its token.
-- * Keys (src/utils.rs and the copies of `mask_key`): the keys by which endpoints, teams and tokens
--   are known to the other parts.
-- * Router/Balancer (src/router/balancer.rs): the choice of an endpoint; its state is the table of
--   round-robin counters. Router/Sticky (src/router/sticky.rs): the endpoint of a session.
-- * Fail2ban (src/fail2ban/breaker.rs): failures and bans, by endpoint key. Fail2ban/Machine: the
--   same for one endpoint alone, with counters that have no bound.
-- * RateLimit/Tpm and RateLimit/Store (src/ratelimit/limiter.rs): the token bucket, and the store
--   of limiters by key.
-- * Sync (src/sync): counters, bans and sessions shared through Redis. Sync/Connect: the server that
--   a store connects to.
-- * Health (src/health/checker.rs): probes of the endpoints, which ban and unban.
-- * Json (the crate serde_json): values, as an interface with the laws that the crate documents.
-- * Anthropic (src/proxy/anthropic.rs): requests and responses translated between the interfaces.
-- * Proxy/State, Proxy/Limits, Proxy/Attempt and Proxy/Handler (src/proxy/handler.rs): the state
--   that the parts share, `check_all_rate_limits`, the body of the retry loop, and `proxy_handler`,
--   which calls all of the above in the order of the code. Proxy/Body is what it reads from the
--   bytes of a request, Proxy/Chat puts the two together, Proxy/Response is what it makes of an
--   answer, and Proxy/Stream what it reads of a streamed one.
-- * Proxy/Generic (src/proxy/handler.rs): `proxy_generic`, for all other paths below /v1/.
-- * Proxy/Headers (src/proxy/handler.rs): the requests that reach the endpoints, with their headers,
--   and the headers of an answer that are handed on. Proxy/Replies (src/utils.rs and
--   src/proxy/handler.rs): the responses that the client gets, with `json_error`,
--   `rate_limit_response` and the headers that the router adds.
-- * Models (src/main.rs): the lists of models, `list_models` and `ollama_tags`. Dashboard
--   (src/health/dashboard.rs): the reports `health_json` and `stats_json`; Dashboard/Page: the page
--   `health_dashboard`. Keys/Urls (src/utils.rs): the addresses that reports and logs show.
-- * Stats (src/stats/pg.rs): the tables of the statistics, with the SQL statements as functions on
--   them, and the background aggregation. Proxy/Recorded (src/proxy/handler.rs): the rows that the
--   handlers write.
-- * Server (src/main.rs): the arguments, the state at the start, the table of routes, and a request
--   from its arrival through `auth_middleware` and its handler to its response.
--   Server/System: the running program, whose steps are requests, the ends of streams, rounds of the
--   background tasks and changes of the configuration file, in any order.
-- * Base holds the shared helpers, Samples a small configuration, Tests runs and instances.
--
-- How the code is read:
-- * A function that changes state takes the state and returns it with its result. A request runs
--   alone from its start to its end, and the tasks that it spawns to update Redis run at once; locks
--   and atomics are not modelled.
-- * A `String` is the list of its bytes. A counter or an amount of 32 or 64 bits is a number whose
--   wrap-around is written out (`% u64_mod`, `wrap_i64`); the numbers of requests and errors by key
--   in the statistics are unbounded. `f64` is a parameter (Base/Machine).
-- * Times are arguments, in nanoseconds, or in seconds for the wall clock.
-- * Outside the program, and parameters: the crate governor (`Governor`), the Redis server
--   (`Redis`), the crate serde_json (`Json`, with `JsonLaws`), the answers of the endpoints
--   (`HttpRound`, `Probe`), the random part of a response's identifier, the environment variables,
--   what the configuration file holds and the events of its changes, the parsers of YAML and of
--   URLs, how the crate axum finds a route in the table, which texts the crate http takes as the
--   value of a header, how an `f64` is printed, and the opening of a connection to Redis.
-- * Not every JSON value comes back unchanged when it is printed and parsed: floats may be rounded,
--   and there is a limit of depth. `JsonLaws` says so of texts and nulls on two levels, the errors of
--   the router; what a client or an endpoint has sent must be `Printable`, as a hypothesis.
-- * `proxy_handler` takes what it reads of the body (`ParsedBody`) and the status and tokens of an
--   answer (`Round`) as they come out of the bytes; `chat_handler` makes them from the bytes.
-- * The task of a streamed answer runs when the stream has ended, as a step of its own
--   (`finish_stream`, `generic_stream_end`). `drain_events` runs on fuel, the length of the buffer,
--   which is enough since an event takes two bytes at least.
-- * `retry_loop` runs on fuel, one unit for a round, since the source has no bound of its own. Where
--   the router's keys agree with the handler's, as many units as the model has endpoints are
--   enough; where they do not, no number is.
--
-- Not modelled: the metrics, which are only written to; the timeout of a request, which drops its
-- handler in the middle; the log, cross-origin headers, the settings of the HTTP client, sockets and
-- the shutdown; the indexes of the database and the migration of its old tables.
pub mod Anthropic
pub mod Auth
pub mod Base
pub mod Config
pub mod Dashboard
pub mod Fail2ban
pub mod Health
pub mod Json
pub mod Keys
pub mod Models
pub mod Proxy
pub mod RateLimit
pub mod Router
pub mod Samples
pub mod Server
pub mod Stats
pub mod Sync
pub mod Tests
