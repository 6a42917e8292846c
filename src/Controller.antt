-- ===== src/Controller.antt =====
-- core/erizo_controller.cpp: the handlers of the controller.
pub mod Message
pub mod Bridge
pub mod Answer
pub mod Alloc
pub mod Publish
pub mod Subscribe
pub mod Token
pub mod Event
pub mod Signaling
pub mod Socket
pub mod Start
pub mod Remove
pub mod Dispatch
pub mod Heartbeat
