-- ===== src/Session/Manager.antt =====
-- The session manager of src/session.c: a growing table of slots with a free list through the unused
-- ones, and a version in each slot that tells a stale session id from a live one.
pub mod Defs
pub mod FreeList
pub mod Invariant
pub mod Take
pub mod Alloc
pub mod Keep
pub mod Remove
