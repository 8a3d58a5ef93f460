-- ===== src/Udpr.antt =====
-- The reliable UDP binding (dll_src/reliableudp/src/ndll/udprsocket.c) over ENet.
pub mod Enet
pub mod Handle
pub mod Send
pub mod Close
pub mod Event
mod Tests
