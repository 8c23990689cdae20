-- ===== src/Connection/Calls.antt =====
-- Coroutines that send calls and the read loop that hands them the replies, in any order:
-- SendMessageInternal and HandleReadMessage of src/DBusConnection.txx, interleaved where they
-- await.
pub mod Defs
pub mod Kept
pub mod Handed
pub mod Received
pub mod Taken
pub mod Answers
pub mod Frames
pub mod Unknown
pub mod Refused
pub mod Progress
pub mod Leaks
