-- ===== src/Utils.antt =====
-- utils.c: integers in network byte order, stripping of delimiters, base64.
pub mod Base64
pub mod Bytes
pub mod Strip
pub mod Tests
