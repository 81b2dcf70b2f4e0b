-- ===== src/Store.antt =====
-- What the processes keep: PostgreSQL through Prisma, and Redis.
pub mod Rows
pub mod Prisma
pub mod Redis
pub mod Order
