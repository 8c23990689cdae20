-- ===== src/Codec.antt =====
-- The wire codec: src/DBus.h, with the type concepts of src/DBusConcepts.h and the signatures and
-- alignments of types of src/DBusHelpers.h.
pub mod Types
pub mod Bytes
pub mod Variants
pub mod Marshal
pub mod Unmarshal
pub mod Layout
pub mod Appending
pub mod Fits
pub mod Containers
pub mod AppendingAll
pub mod Reading
pub mod Header
pub mod Packed
pub mod Arrays
pub mod Pairs
pub mod Maps
pub mod Entries
pub mod RoundTrip
pub mod Termination
pub mod Bounds
pub mod Room
pub mod Totality
pub mod Signatures
