-- ===== src/Message.antt =====
-- The list of receivers (src/sidlist.c) and the messages with their counters (src/message.c).
pub mod SidList
pub mod SidListLaws
pub mod SidListDel
pub mod Defs
pub mod Laws
pub mod Tests
