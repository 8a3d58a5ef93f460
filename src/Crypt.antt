-- ===== src/Crypt.antt =====
-- The crypt module (dll_src/crypt/src): XXTEA of tea.cpp and its Neko binding.
pub mod Tea
pub mod Aes
mod Tests
