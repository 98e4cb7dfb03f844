-- ===== src/Jobs/Redis.antt =====
-- Redis, as internal/jobs uses it: what a server holds, and its commands with their effects.
mod Store
mod Server
pub use Store.*
pub use Server.*
