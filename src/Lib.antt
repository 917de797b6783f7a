-- ===== src/Lib.antt =====
-- Verification library of the task API: a FastAPI service for the tasks of users, with a cache and locks in
-- Redis, rate limits for logins, and an external service behind retries and a circuit breaker. Each
-- file models the code that its opening comment names; the paths are from the repository's root.
--
-- Parts, and how they interact:
-- * CircuitBreaker (circuit_breaker.py): the state machine of `before_call`, `record_success` and
--   `record_failure`, each a function of the breaker and the clock reading.
-- * Retrying (retrying.py): `retry_http_operation` as a loop over attempts that each take time and
--   return or raise, with delays and the total timeout.
-- * ExternalService (external_service.py, routers/external.py): a request through the breaker and the
--   retries, and the HTTP status of each failure; Outage runs requests one after another.
-- * RedisLock, WebsocketTickets, RedisRateLimiting, TaskCache (redis_lock.py, websocket_tickets.py,
--   redis_rate_limiting.py, task_cache.py): the classes over a Redis client.
-- * RateLimiting (rate_limiting.py): the limiter in the process, to which RateLimitDependencies
--   (rate_limit_dependencies.py) falls back when Redis fails.
-- * Models (models.py, database_models.py): rows, bodies of requests, responses and their constraints.
-- * TaskCacheDependencies (task_cache_dependencies.py, task_dependencies.py): a read of a task by the
--   cache, the lock, the wait for another reader and the database, and the invalidation.
-- * TaskRoutes (routers/tasks.py, dependencies.py): create, list, update and delete. Its Interleaving is
--   a step relation: requests of any number of clients run in parts, each commit, each selection, each
--   filling and each invalidation a step, on the state of the server, the database and its history.
-- * ReconnectBackoff (reconnect_backoff.py): the delays between reconnects.
-- * ConnectionManager (connection_manager.py): the WebSockets of each user, and a broadcast as the
--   completions of its sends in any order.
-- * RealtimeModels (realtime_models.py, realtime_event_handler.py), RealtimeBroker and
--   RealtimeSubscriber (realtime_broker.py): an event is published as an envelope; the subscriber runs
--   over subscriptions, each what the server sends and how it ends, and hands messages to the handler,
--   which broadcasts them to the user's connections.
-- * RealtimeRoutes (routers/realtime.py): the WebSocket routes over what a client sends, round by round.
-- * UserModels, Security, Authentication (user_models.py, security.py, authentication.py): users, tokens,
--   and whom a password or a token admits, over the parameters in Accounts.
-- * AuthRoutes, WebsocketAuthentication (routers/auth.py, websocket_authentication.py): registration,
--   login behind its rate limit, and the tickets that open a WebSocket.
-- * Application (main.py): what is set up at import, what `lifespan` builds, and the order of its actions.
-- * Middlewares (middlewares.py, exception_handlers.py): the headers of responses, and the 500.
-- * Health, Storage (routers/health.py, storage.py): the checks, and the ids of stored tasks.
-- * Config (config.py, main.py and the dependencies): the settings with their defaults and bounds,
--   `get_settings`, which reads them once, and the components that are built from them.
-- * Sessions (dependencies.py, database.py): the session of a request, and what is done to each new
--   connection of SQLite.
-- * Migrations (migrations/versions, database_models.py): the two revisions over the operations of
--   Alembic, and the tables that the models declare.
-- * Base (what all parts share): the shared types and lemmas. A call that reads and writes a state is
--   `Exec S A = S → Result A × S`, where `err e` is a raised exception.
-- * Tests (concrete inputs): runs on concrete inputs.
--
-- Redis and the SQL database are parameters (Redis, Database, Accounts): records of their
-- commands, with their documented behaviour as laws (Redis.Laws, Database.Laws, Accounts.Laws),
-- which Redis.Server, Database.Tables, Accounts.Memory and Accounts.Credentials meet for concrete
-- runs; so are the session, the connection of sqlite3 and Alembic (Sessions.Laws, Migrations.Laws,
-- with Sessions.Memory and Migrations.Memory). Before each command, `arrive` says what else
-- happens on the server: time passes, keys expire, other clients write. The network delivers a
-- call, loses its request or loses its reply, and the client raises `RedisError` in the last two
-- cases; theorems hold for each of these unless they say otherwise. A statement of the database
-- works, or raises and changes nothing; within one request about tasks no other client's statement
-- comes between its own, except in TaskRoutes.Interleaving, and for users it may. The JSON form of
-- a task, the HTTP client, the password hash, the token library, random delays and generated
-- tokens are parameters too, and which URLs and which algorithms the client libraries accept.
--
-- Bounds and units: times are natural numbers of clock ticks (nanoseconds where seconds matter, as in
-- RateLimiting), ids and settings integers, texts lists of code points. All loops are structural: the
-- retries on the attempts left and the wait for the cache on the rounds left, both of which the code
-- bounds itself, and the loops that the code does not bound on what the clients and the server send, so
-- that no fuel is chosen.
--
-- Not modelled: logging; floating-point rounding of times, and the OverflowError of a backoff after
-- 1024 attempts, which the settings' bound of 5 attempts excludes; the parsing of JSON bodies; texts
-- that Python's `int` reads but `str` never writes, such as digits with blanks around them; the thread
-- of the audit log; exceptions of `jwt.decode` other than InvalidTokenError; the time that a login
-- takes, and with it the check against a dummy hash; cancellation within a call; the wiring of routers
-- and dependencies, which only hands out instances; the options of the engine; how pydantic-settings
-- finds and parses the environment; migrations/env.py, which only hands Alembic its configuration and
-- a connection.
pub mod Base
pub mod CircuitBreaker
pub mod Retrying
pub mod ExternalService
pub mod Redis
pub mod RedisLock
pub mod WebsocketTickets
pub mod RateLimiting
pub mod RedisRateLimiting
pub mod RateLimitDependencies
pub mod Models
pub mod Database
pub mod TaskCache
pub mod TaskCacheDependencies
pub mod TaskRoutes
pub mod Accounts
pub mod UserModels
pub mod Security
pub mod Authentication
pub mod AuthRoutes
pub mod WebsocketAuthentication
pub mod RealtimeModels
pub mod RealtimeBroker
pub mod RealtimeSubscriber
pub mod RealtimeRoutes
pub mod Application
pub mod Middlewares
pub mod Health
pub mod Sessions
pub mod Migrations
pub mod Storage
pub mod Config
pub mod ReconnectBackoff
pub mod ConnectionManager
pub mod Tests
