-- ===== src/Text.antt =====
-- Rust's `&str`, as the list of its code points, with the operations of the standard library
-- that the scanner uses. A substring test, a replacement and a split give the same result on
-- code points as on UTF-8 bytes. Offsets are bytes: `Text/Bytes.antt`.
pub mod Bytes
pub mod Find
pub mod Space
