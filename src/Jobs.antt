-- ===== src/Jobs.antt =====
-- internal/jobs: the Redis queue, the distributed lock and the worker pool.
pub mod Exec
pub mod Job
pub mod Redis
pub mod RedisQueue
pub mod Lock
pub mod Metrics
pub mod WorkerPool
pub mod JobService
pub mod Calendar
pub mod Scheduler
