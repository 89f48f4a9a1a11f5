-- ===== src/Table.antt =====
-- The hash table of UDP endpoints: src/ephashtable.h and src/ephashtable.c.
pub mod Hash
pub mod Defs
pub mod Stack
pub mod Laws
pub mod Run
pub mod Tests
