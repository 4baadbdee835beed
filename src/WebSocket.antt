-- ===== src/WebSocket.antt =====
-- The WebSocket protocol: caf/detail/rfc6455.hpp and caf/net/web_socket.
pub mod Rfc6455
pub mod Framing
pub mod Http
pub mod Handshake
pub mod Layer
pub mod Server
pub mod Client
pub mod Opening
mod Tests
