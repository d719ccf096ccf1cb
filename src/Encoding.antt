-- ===== src/Encoding.antt =====
-- The encodings of bytes (src/encoding).
pub mod Hex
