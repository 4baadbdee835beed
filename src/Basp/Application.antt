-- ===== src/Basp/Application.antt =====
-- caf/net/basp/application.hpp, src/net/basp/application.cpp, caf/net/basp/remote_message_handler.hpp
-- and src/worker.cpp: the state of the BASP application, and what it uses of the actor system.
pub mod System
pub mod Handlers
pub mod Protocol
pub mod Kept
pub mod Packets
pub mod Session
pub mod Phases
pub mod Resolving
pub mod Ordering
