-- ===== src/Connection/Framing.antt =====
-- ReadLoop of src/DBusConnection.txx against CreateDBusMessage of src/DBusMessage.cpp: how the stream
-- of bytes is cut into messages.
pub mod Parts
pub mod Front
pub mod Pieces
pub mod Rounds
pub mod Rest
