-- ===== src/Bots.antt =====
-- packages/bot-rules and apps/bot-worker: rules that react to the canonical events, and scheduled jobs;
-- and packages/bot-sdk.
pub mod Value
pub mod Conditions
pub mod State
pub mod Rules
pub mod Engine
pub mod Events
pub mod Scheduler
pub mod Sdk
