-- ===== src/Worker.antt =====
-- internal/queue: the worker that runs jobs from a Redis stream.
pub mod Stream
pub mod Retries
pub mod Stores
pub mod Purge
pub mod Deps
pub mod Memory
pub mod Handle
pub mod Add
pub mod System
