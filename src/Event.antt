-- ===== src/Event.antt =====
-- The event loop: `struct event` and `struct eventset` of src/event-internal.h, the timer wheel of
-- src/timer.c and the event sets of src/event.c.
pub mod Defs
pub mod Wheel
pub mod Rounds
pub mod Due
pub mod Sets
pub mod Once
pub mod Linked
pub mod SetLaws
pub mod Removal
pub mod Tick
pub mod Dispatch
pub mod Offset
pub mod Advance
pub mod Timed
pub mod Countdown
pub mod Fires
pub mod Loop
pub mod Wait
pub mod Quiet
pub mod Callbacks
pub mod Active
pub mod Tests
