-- ===== src/Channel.antt =====
-- Sending on a session: src/channel.c and the send queue of src/session.c.
pub mod Defs
pub mod Store
pub mod Close
pub mod Shared
pub mod Status
pub mod Handlers
pub mod Waiting
pub mod Handled
pub mod Progress
mod Transmit
mod Drain
mod Send
mod Stream
mod Tests
