-- ===== src/Binary.antt =====
-- src/ua_types_encoding_binary.c: the binary encoding of the built-in types.
pub mod Stream
pub mod Wire
pub mod Integers
pub mod Strings
pub mod NodeIds
pub mod WordWire
pub mod StringWire
pub mod NodeIdWire
pub mod RoundTrip
pub mod Safety
pub mod Overrun
mod Tests
