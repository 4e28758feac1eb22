-- ===== src/Serializator/Decode.antt =====
-- deserialise of serializator.hpp: the matches name a cell and an offset within it, so the decoder
-- reads cells from its own output as soon as the bits are there.
pub mod Meta
pub mod Fields
pub mod Refs
pub mod Places
pub mod Predict
pub mod Cursor
pub mod Sections
pub mod AllSections
pub mod RoundTrip
pub mod Ordered
pub mod Sorted
pub mod Written
pub mod Readers
pub mod Symbols
pub mod Content
pub mod Stream
pub mod Capped
pub mod Examples
