-- ===== src/Serializer.antt =====
-- src/core/serializer.cpp: `BinarySerializer` and `JsonSerializer`.
pub mod Rle
pub mod Xor
pub mod Checksum
pub mod Json
