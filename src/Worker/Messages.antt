-- ===== src/Worker/Messages.antt =====
-- apps/chat-worker/src/handlers/messages.ts.
pub mod Send
pub mod Sequence
pub mod Outcome
pub mod Delivery
pub mod Acceptance
pub mod Unread
pub mod Edit
