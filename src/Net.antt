-- ===== src/Net.antt =====
-- What the layers of caf/net share: I/O operations, receive policies, errors, and the interface
-- that a stream-oriented lower layer offers.
pub mod Operation
pub mod ReceivePolicy
pub mod Error
pub mod Down
pub mod Consumed
