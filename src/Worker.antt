-- ===== src/Worker.antt =====
-- apps/chat-worker/src: the authority. A command comes in, its handler checks it, changes the
-- database in one transaction, and leaves the canonical event in the outbox.
pub mod Context
pub mod Messages
pub mod Receipts
pub mod BotSend
pub mod Presence
pub mod Reactions
pub mod Typing
pub mod Outbox
pub mod Dispatch
