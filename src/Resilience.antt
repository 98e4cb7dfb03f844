-- ===== src/Resilience.antt =====
-- internal/resilience: the circuit breaker with its sliding window, retries and rate limiting.
pub mod SlidingWindow
pub mod CircuitBreaker
pub mod Retry
pub mod RateLimiter
pub mod Registry
