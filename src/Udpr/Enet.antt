-- ===== src/Udpr/Enet.antt =====
-- ENet as the binding udprsocket.c (dll_src/reliableudp/src/ndll) calls it, and the Neko values that
-- the primitives take.
use caffeine_hx.Common.{ℕ, Bool, List, Option}
use caffeine_hx.Common.Int.{ℤ}

-- `enet_packet_create`: a copy of the bytes, and whether ENET_PACKET_FLAG_RELIABLE is set.
pub record Packet : Type 0 where
  pub bytes : List ℕ
  pub reliable : Bool

-- `ENetEvent`, with the peer's place in its host
pub data Event : Type 0 where
  no_event : Event
  connected : ℕ → Event
  received : ℕ → ℕ → Packet → Event
  disconnected : ℕ → Event

-- What `enet_host_service` gives: a negative number, 0, or 1 with an event.
pub data Service : Type 0 where
  failed : Service
  nothing : Service
  event : Event → Service

-- The functions of ENet on its state. `peer_send` says whether it failed.
pub record Enet : Type 1 where
  pub World : Type 0
  pub host_service : ℕ → ℕ → World → World × Service
  pub peer_send : ℕ → ℕ → Packet → World → World × Bool
  pub peer_disconnect : ℕ → World → World
  pub peer_disconnect_now : ℕ → World → World
  pub peer_reset : ℕ → World → World
  pub packet_destroy : Packet → World → World

-- An abstract of a kind holds a pointer that may be NULL.
pub data Arg : Type 0 where
  int : ℤ → Arg
  string : List ℕ → Arg
  bool : Bool → Arg
  host : Option ℕ → Arg
  peer : Option ℕ → Arg
  other_value : Arg
