-- ===== src/Poll.antt =====
-- The backend on epoll: src/epoll.c.
pub mod Kernel
pub mod Defs
mod Pairs
mod Add
mod Del
pub mod Dispatch
mod Active
mod Tests
