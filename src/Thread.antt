-- ===== src/Thread.antt =====
-- An I/O thread and its queue of tasks: src/msgqueue.c and src/threads.c.
pub mod Defs
mod Process
mod System
mod Push
mod Wake
mod Order
mod Tests
