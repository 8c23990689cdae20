-- ===== src/Connection/Framing/Rest.antt =====
-- How many rounds ReadLoop of src/DBusConnection.txx takes.
use cxx_bus.Codec.Bytes.{Bytes}
