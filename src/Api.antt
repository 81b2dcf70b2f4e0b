-- ===== src/Api.antt =====
-- apps/api/src/controllers/chat.controller.ts: the endpoints that set conversations up, change who is
-- in them, and read their history.
pub mod Reply
pub mod PairKey
pub mod Members
pub mod Create
pub mod History
