-- ===== src/Queue.antt =====
-- The ring queue that the macro QUEUE_GENERATE of src/queue.h writes out for each element type,
-- with `taskqueue` (src/msgqueue.c) and `sendqueue` (src/session.c) as its two instances.
-- The counters `head` and `tail` are uint32_t: they run freely and wrap at 2 ^ 32.
pub mod Defs
pub mod Window
pub mod Laws
pub mod Fifo
pub mod Run
pub mod Tests
