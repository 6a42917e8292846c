-- ===== src/Websocket.antt =====
-- websocket/: the connections of the clients, and the server that holds them.
pub mod Handler
pub mod Server
