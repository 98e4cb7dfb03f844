-- ===== src/Examples.antt =====
-- Test runs, and the results at a concrete input.
mod Memory
mod Auth
mod Grpc
mod Mongo
mod Http
mod Ssr
mod Config
mod Breaker
mod Scheduler
mod Resilience
mod Server
mod Queue
mod Lock
mod Websocket
mod Plugin
mod PluginService
mod Response
