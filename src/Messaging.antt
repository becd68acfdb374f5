-- ===== src/Messaging.antt =====
-- shared/messaging
pub mod Idempotency
pub mod Publish
pub mod Consume
pub mod Sockets
pub mod Topology
