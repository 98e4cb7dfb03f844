-- ===== src/Plugin.antt =====
-- internal/plugin: the manager of plugins.
pub mod Manager
