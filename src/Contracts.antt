-- ===== src/Contracts.antt =====
-- packages/mqtt-contracts/src: what crosses the broker.
pub mod Topics
pub mod Envelope
pub mod Commands
pub mod Events
