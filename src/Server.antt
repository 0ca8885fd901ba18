-- ===== src/Server.antt =====
-- server.c: what a thread does with a connection, over the parts of a message.
pub mod Files
pub mod Process
pub mod Send
pub mod Client
