-- ===== src/Tests.antt =====
-- The theorems at concrete inputs.
pub mod Model
pub mod Process
pub mod Redis
pub mod Contention
pub mod Config
pub mod Entry
pub mod Controller
pub mod Signaling
pub mod Thread
pub mod Websocket
pub mod Loader
pub mod Rpc
pub mod Route
pub mod Amqp
