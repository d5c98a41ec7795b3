-- ===== src/Text.antt =====
-- The textual form of values: input streams, the printer and the parser of src/value.cpp.
pub mod Stream
pub mod Digits
pub mod Printer
pub mod Parser
pub mod Numbers
pub mod Steps
pub mod RoundTrip
mod Examples
