-- ===== src/Hash/Sha1.antt =====
-- SHA-1 as sha1.c computes it (dll_src/hash/src/sha1.c).
pub mod Transform
pub mod Context
pub mod Stream
pub mod Schedule
pub mod Update
pub mod Digest
