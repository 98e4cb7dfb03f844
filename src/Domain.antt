-- ===== src/Domain.antt =====
-- internal/domain: entities, repositories and the services over them.
pub mod Entity
pub mod Repository
pub mod AuthService
pub mod UserService
pub mod PluginService
pub mod Mongo
pub mod Ssr
