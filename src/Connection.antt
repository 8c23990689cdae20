-- ===== src/Connection.antt =====
-- DBusConnectionImpl of src/DBusConnection.h and src/DBusConnection.txx.
pub mod Channels
pub mod Replies
pub mod Slots
pub mod Calls
pub mod State
pub mod Requests
pub mod Sending
pub mod Registry
pub mod NameLists
pub mod Rules
pub mod OwnedNames
pub mod Closing
pub mod Farewell
pub mod Dispatch
pub mod Signals
pub mod Handlers
pub mod Reading
pub mod Framing
pub mod Handshake
pub mod Welcome
pub mod Waiters
