-- ===== src/WebSocket/Tests.antt =====
-- Frames on concrete inputs.
mod Base64
mod HandshakeTests
mod Rfc6455Tests
mod FramingTests
