-- ===== src/Demo.antt =====
-- Libraries and servers that meet the laws of `External`, for the examples.
pub mod Tree
pub mod Codec
pub mod Library
pub mod Server
pub mod World
