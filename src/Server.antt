-- ===== src/Server.antt =====
-- pkg/server: the JSON-RPC server over one connection and its subscriptions.
pub mod Notifier
pub mod NewId
pub mod Requests
pub mod Dispatch
pub mod Callbacks
pub mod Registration
pub mod Http
pub mod Websocket
pub mod Lifecycle
pub mod Session
