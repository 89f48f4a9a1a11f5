-- ===== src/Utils.antt =====
-- The arithmetic of src/utils.c.
pub mod Defs
pub mod Power
pub mod Tests
