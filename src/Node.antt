-- ===== src/Node.antt =====
-- internal/node/nodeutil: the node controller's set-up and the guard of its HTTP API.
pub mod Auth
pub mod Config
pub mod Controller
pub mod Handler
pub mod Run
pub mod Ready
pub mod Tls
pub mod ClientCa
pub mod Client
pub mod Webhook
pub mod Routes
pub mod Instrument
pub mod Filter
