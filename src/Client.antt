-- ===== src/Client.antt =====
-- The clients: packages/realtime-core/src, the message store, transcript and conversation list of apps/mobile,
-- and the store of apps/web.
pub mod Sort
pub mod Model
pub mod Lifecycle
pub mod Rows
pub mod Dict
pub mod Ephemeral
pub mod Web
pub mod Normalize
pub mod Events
pub mod Watermark
pub mod Conversations
pub mod Snapshot
pub mod Realtime
