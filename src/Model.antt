-- ===== src/Model.antt =====
-- model/*.h: the records that the controller keeps in Redis, with their JSON texts.
pub mod Outcome
pub mod Fields
pub mod Client
pub mod Publisher
pub mod Subscriber
pub mod BridgeStream
pub mod ErizoAgent
pub mod Room
pub mod Heartbeat
pub mod RoundTrip
