-- ===== src/Hash.antt =====
-- The hash module (dll_src/hash/src): SHA-1 of sha1.c and the container of sha1_lua_neko.c.
pub mod Sha1
pub mod Algorithm
pub mod Container
pub mod Value
mod Tests
