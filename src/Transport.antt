-- ===== src/Transport.antt =====
-- packages/ssh-transport/src: the SSH sessions of the client.
pub mod Types
pub mod WebSocket
pub mod Native
