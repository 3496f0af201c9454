-- ===== src/Builtins/Encoding.antt =====
-- src/builtins.c: the built-ins that encode text.
pub mod Base64
pub mod Bytes
pub mod Decoding
pub mod Integers
pub mod Url
