-- ===== src/Lib.antt =====
-- Verification of arcana-cloud-go, the Go backend of Arcana: HTTP, gRPC and GraphQL servers over
-- services, with background jobs in Redis, plugins, WebSocket connections and resilience helpers.
--
-- What is modelled, and where:
--   Base                      names, lists, Boolean tests and integers that all modules share
--   Resilience/SlidingWindow  SlidingWindow of internal/resilience/circuitbreaker.go: Record is
--                             record_call, FailureRate failure_rate, SlowCallRate slow_call_rate
--   Resilience/CircuitBreaker CircuitBreaker of the same file: allowRequest is allow_request,
--                             recordOutcome record_outcome, Execute execute, transitionTo transition_to
--   Resilience/Retry          Retry and RetryWithResult of internal/resilience/retry.go
--   Resilience/RateLimiter    SlidingWindowLimiter of internal/resilience/ratelimiter.go
--   Resilience/Registry       CircuitBreakerRegistry of internal/resilience/registry.go
--   Jobs/Job                  internal/jobs/job.go: payloads, options, retry policies
--   Jobs/Exec                 the errors of internal/jobs
--   Jobs/Redis                keys, values and the Redis commands that internal/jobs uses, as a record
--   Jobs/RedisQueue           internal/jobs/queue/redis_queue.go, a function for each method
--   Websocket/Sets            the Go maps of client sets
--   Websocket/Hub             internal/websocket/hub.go, a function for each request of Run
--   Plugin/Manager            internal/plugin/manager/manager.go, a function for each method
--   Response                  NewPagedResponse of internal/dto/response/api.go
--   Table                     Go maps with string keys
--   Action                    the shape of the methods that change a state and may fail
--   Jobs/Lock                 LockManager of internal/jobs/lock/distributed_lock.go
--   Jobs/Metrics              the counters of internal/jobs/metrics.go
--   Jobs/WorkerPool           internal/jobs/worker/pool.go: processNextJob is process_next_job
--   Jobs/Calendar             the windows of internal/jobs/scheduler/scheduler.go
--   Jobs/JobService           internal/jobs/job_service.go
--   Jobs/Scheduler            internal/jobs/scheduler/scheduler.go: executeScheduledJob is
--                             execute_scheduled_job, tryAcquireLeadership try_acquire_leadership
--   Security                  JWTProvider of internal/security/jwt.go
--   Domain/Entity             users and refresh tokens of internal/domain/entity/user.go
--   Domain/Repository         the repositories of internal/domain/repository, as a record
--   Domain/AuthService        internal/domain/service/impl/auth_service_impl.go
--   Domain/UserService        internal/domain/service/impl/user_service_impl.go
--   Domain/Mongo              internal/domain/dao/impl/mongo and internal/domain/repository/impl: Users and
--                             RefreshTokens are the DAOs, Delegation the repositories over them
--   Domain/PluginService      internal/domain/service/impl/plugin_service_impl.go
--   Domain/Ssr                internal/domain/service/impl/ssr_service_impl.go
--   Http                      the controllers of jobs, users and authentication in
--                             internal/controller/http, behind the middleware; AuthController also has
--                             the handlers that internal/di/server.go puts before every route
--   Middleware                internal/middleware/{auth,cors,request_id}.go and
--                             internal/security/security_service.go
--   Grpc                      the layers: Grpc/RepositoryServer is internal/controller/grpc/repository,
--                             Grpc/UserRepository internal/domain/repository/grpc, Grpc/ServiceServer
--                             internal/controller/grpc/service; Layered and Accounts run the services
--                             over client and server
--   Config                    internal/configserver: Config/Server, Handlers, Loading and Merge are
--                             server.go, Config/Client and Refresh are client.go
--   Examples                  test runs, and each result of the list below at a concrete input
--
-- How the parts meet: an accepted call of the breaker runs between allow_request and record_outcome,
-- with no lock held, so what other goroutines do in between is an argument of execute. The worker pool
-- calls dequeue, then complete or fail; the scheduled processor calls process_scheduled. The hub
-- handles one request after the other, in the order in which its channels deliver them. The operations
-- of the plugin manager are taken one after the other too, although StartPlugin and StopPlugin give up
-- the lock before they call the plugin.
--
-- Conventions. A method takes the state and returns the new one beside its result; a mutex makes a
-- method one step, and Get of the breaker registry, which takes one lock after another, two steps with
-- those of others in between. Times and durations are nanoseconds since some start, as natural numbers, and the
-- readings of the clock are arguments. Counters of type int or int64 are natural numbers without a
-- bound, or integers where the code may take them below zero. Float64 values are kept as bits or as
-- fractions, and the functions that compute with them are arguments: Retry's Env, Scale for the
-- exponential delay. An index out of range is none, and a send on a closed channel is panicked.
--
-- Loops: retry_loop and fetch_rounds count the rounds that are left, which max_attempts and
-- retry_count bound; the other loops run over lists. There is no fuel that could run out.
--
-- Redis and encoding/json are not part of the repository. A server is a record of commands, and the
-- theorems that need answers assume IsUp: every command is answered and has the effect that the Redis
-- documentation states. Examples/Server gives a server that has it. Another client's commands between
-- two commands of one method are not modelled, and keys do not expire; where that matters, the
-- theorem says so. Ids of workers and schedulers are UUIDs, so they hold no colon.
--
-- The services of internal/domain work on a record of repositories. Theorems that need answers assume
-- IsDb, or IsPluginDb, the effect of each query on the tables; Examples/Memory and
-- Examples/PluginService give databases that have it. The JWT library is a record of signing and
-- parsing, and ParsesSigned says that a signed text is parsed until it expires. bcrypt, the cron
-- parser, SHA-256, the rendering of payloads and the calendar are arguments. MongoDB is a record of
-- collections, and IsCollection says what their commands do; Examples/Mongo gives one that has it.
-- Files, parsers and the answers of servers are arguments of the configuration server and its client.
--
-- Not modelled: the token bucket of internal/resilience, the goroutines and tickers that call the
-- worker pool, the election and the refresh of the configuration, PurgeDLQ, the DAOs over GORM and
-- those of plugins, internal/config, the controllers of plugins, of rendering and of GraphQL,
-- internal/di, internal/observability, internal/grpc, internal/testutil, pkg and cmd. Much of it is
-- configuration, logging, wiring, and input and output.
mod Base
mod Table
mod Action
pub mod Resilience
pub mod Jobs
pub mod Websocket
pub mod Plugin
pub mod Response
pub mod Security
pub mod Domain
pub mod Middleware
pub mod Grpc
pub mod Config
pub mod Http
mod Examples
