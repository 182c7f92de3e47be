-- ===== src/Header.antt =====
-- b_header.c: the 512-byte header block of an archive member.
pub mod Number
pub mod Digits
pub mod Fields
pub mod Layout
pub mod Encode
pub mod Readback
pub mod Checksum
pub mod Sized
