-- ===== src/Http.antt =====
-- The HTTP request parser (dll_src/httpp/src): the state machine of http11_parser.c and the Neko
-- binding http11neko.c that drives it.
pub mod Char
pub mod State
pub mod Dispatch
pub mod Parser
pub mod Execute
pub mod Neko
pub mod Offsets
pub mod Total
pub mod Polled
pub mod Request
mod Tests
