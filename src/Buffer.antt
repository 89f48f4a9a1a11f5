-- ===== src/Buffer.antt =====
-- The byte buffer of src/message.h and src/message.c: `struct buffer` and the buffer_ functions.
pub mod Defs
pub mod Bytes
pub mod Expand
pub mod Laws
pub mod Read
pub mod ReadLaws
pub mod Tests
