-- ===== src/Udpr/Event.antt =====
-- Events of dll_src/reliableudp/src/ndll/udprsocket.c: udpr_poll, free_enetevent, the finalizer
-- destroy_enetevent, and what scripts read of an event.
use caffeine_hx.Common.{
  ℕ, zero, suc, List, [], ◌∷◌, ◌++◌, Option, none, some, get_elem?, set, length,
}
use caffeine_hx.Common.Slots.{slot}
use caffeine_hx.Udpr.Enet.{
  Packet, Event, no_event, connected, received, disconnected, Service, failed, nothing, event, Enet,
}
pub mod Owned
pub mod Safe
pub mod Misuse
mod Tests

-- The blocks that udpr_poll got from enet_malloc, by address, `none` where freed; and the Neko values
-- that it made: `some a` has the kind k_udprevent and the pointer `a`, `none` has lost its kind or was
-- collected.
pub record Memory (e : Enet) : Type 0 where
  pub world : e.World
  pub blocks : List (Option Event)
  pub values : List (Option ℕ)

-- A primitive gives a value, or calls neko_error; or memory that was freed is used.
pub data Outcome (S A : Type 0) : Type 0 where
  result : A → S → Outcome S A
  neko_error : S → Outcome S A
  fault : Outcome S A

module _ (e : Enet) where
  -- What follows `enet_host_service` in udpr_poll, with the block at the end. It is freed for
  -- ENET_EVENT_TYPE_NONE alone; the result is the new value, or `null`.
  unfoldable pub on_service : Memory e → e.World × Service → Outcome (Memory e) (Option ℕ)
  on_service m (w, failed) =
      neko_error (record m { world = w; blocks = m.blocks ++ some no_event ∷ [] })
  on_service m (w, nothing) =
      result none (record m { world = w; blocks = m.blocks ++ some no_event ∷ [] })
  on_service m (w, event no_event) =
      result none (record m { world = w; blocks = m.blocks ++ none ∷ [] })
  on_service m (w, event x) = result (some (length m.values)) (record {
    world = w;
    blocks = m.blocks ++ some x ∷ [];
    values = m.values ++ some (length m.blocks) ∷ [];
  })

  -- `udpr_poll(h, timeout)`: the host where `h` is one, and the milliseconds where `timeout` is a number.
  unfoldable pub udpr_poll : Option ℕ → Option ℕ → Memory e → Outcome (Memory e) (Option ℕ)
  unfolding on_service
  udpr_poll (some h) (some timeout) m = on_service m (e.host_service h timeout m.world)
  udpr_poll _ _ m = neko_error m

  -- The packet of an event is destroyed, and the block is freed.
  abbrev pub drop_packet : Event → e.World → e.World
  drop_packet (received p c x) w = e.packet_destroy x w
  drop_packet _ w = w

  unfoldable pub free_block : ℕ → Event → Memory e → Memory e
  free_block a x m = record m { world = drop_packet x m.world; blocks = set m.blocks a none }

  -- The kind check on a value, and a read of the block behind a pointer.
  abbrev pub on_pointer :
      {A : Type 0}
      → Outcome (Memory e) A
      → (ℕ → Outcome (Memory e) A)
      → Option ℕ
      → Outcome (Memory e) A
  on_pointer other use_pointer none = other
  on_pointer other use_pointer (some a) = use_pointer a

  abbrev pub on_block :
      {A : Type 0} → (Event → Outcome (Memory e) A) → Option Event → Outcome (Memory e) A
  on_block use_event none = fault
  on_block use_event (some x) = use_event x

  abbrev pub with_event :
      {A : Type 0}
      → Outcome (Memory e) A
      → (ℕ → Event → Outcome (Memory e) A)
      → ℕ
      → Memory e
      → Outcome (Memory e) A
  with_event other use_event v m =
      on_pointer other (λ a. on_block (use_event a) (slot m.blocks a)) (slot m.values v)

  -- `free_enetevent(e)`, which returns true: the value loses its finalizer and its kind.
  unfoldable pub free_enetevent : ℕ → Memory e → Outcome (Memory e) (Unit {0})
  unfolding free_block
  free_enetevent v m =
      with_event (neko_error m)
        (λ a x. result tt (record (free_block a x m) { values = set m.values v none })) v m

  -- `destroy_enetevent(e)`: nothing for a value of another kind; the kind stays.
  unfoldable pub destroy_enetevent : ℕ → Memory e → Outcome (Memory e) (Unit {0})
  unfolding free_block
  destroy_enetevent v m = with_event (result tt m) (λ a x. result tt (free_block a x m)) v m

  -- The collector finds that a value is not reachable: the finalizer runs, and the value is gone.
  abbrev pub gone : ℕ → Outcome (Memory e) (Unit {0}) → Outcome (Memory e) (Unit {0})
  gone v (result r m) = result r (record m { values = set m.values v none })
  gone v (neko_error m) = neko_error m
  gone v fault = fault

  unfoldable pub collect : ℕ → Memory e → Outcome (Memory e) (Unit {0})
  unfolding destroy_enetevent
  collect v m = gone v (destroy_enetevent v m)

  -- `udpr_event_type`, `udpr_event_data`, `udpr_event_channel` and the peer of `udpr_event_peer_idx`. The
  -- channel of an event that is no packet is the one that ENet left there, here 0.
  abbrev pub type_of : Event → ℕ
  type_of no_event = 0
  type_of (connected p) = 1
  type_of (received p c x) = 2
  type_of (disconnected p) = 3

  abbrev pub data_of : Event → List ℕ
  data_of (received p c x) = x.bytes
  data_of _ = []

  abbrev pub channel_of : Event → ℕ
  channel_of (received p c x) = c
  channel_of _ = 0

  unfoldable pub udpr_event_type : ℕ → Memory e → Outcome (Memory e) ℕ
  udpr_event_type v m = with_event (neko_error m) (λ a x. result (type_of x) m) v m

  unfoldable pub udpr_event_data : ℕ → Memory e → Outcome (Memory e) (List ℕ)
  udpr_event_data v m = with_event (neko_error m) (λ a x. result (data_of x) m) v m

  unfoldable pub udpr_event_channel : ℕ → Memory e → Outcome (Memory e) ℕ
  udpr_event_channel v m = with_event (neko_error m) (λ a x. result (channel_of x) m) v m
