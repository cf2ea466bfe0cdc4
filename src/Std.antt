-- ===== src/Std.antt =====
-- What the crates use of Rust's standard library: little-endian integers, text as UTF-8 bytes,
-- and decimal numerals.
pub mod Bytes
pub mod Text
pub mod Decimal
pub mod Lines
pub mod Bits
pub mod Signed
