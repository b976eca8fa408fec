-- ===== src/Server.antt =====
-- server/src: the controller. Connections and their registry, the handler of the messages that a
-- daemon sends, and the loop of one WebSocket.
pub mod Connection
pub mod Registry
pub mod Handler
pub mod Websocket
pub mod Api
pub mod Stats
