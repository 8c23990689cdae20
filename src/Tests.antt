-- ===== src/Tests.antt =====
-- Runs of the models at concrete inputs, and the theorems applied to them.
mod Codec
mod Texts
mod Messages
mod Rules
mod Calls
mod Requests
mod Exchanges
mod Welcome
mod Streams
