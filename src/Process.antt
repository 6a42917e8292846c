-- ===== src/Process.antt =====
-- The state of the controller process, and the calls that read and change it.
pub mod State
pub mod Clock
pub mod Frame
pub mod Ends
pub mod Path
pub mod StreamId
