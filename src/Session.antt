-- ===== src/Session.antt =====
-- Sessions: the 64-bit session ids of src/session.h, and the slot map of src/session.c that hands
-- them out.
pub mod Sid
pub mod SidLaws
pub mod Manager
pub mod Tests
