-- ===== src/Udpr/Event/Tests.antt =====
-- The events of dll_src/reliableudp/src/ndll/udprsocket.c at concrete inputs.
use caffeine_hx.Common.{◌≡◌, refl, List, [], ◌∷◌, none, some}
use caffeine_hx.Common.Slots.{slot}
use caffeine_hx.Udpr.Enet.{no_event, received, disconnected}
use caffeine_hx.Udpr.Event.{
  Memory, result, fault, udpr_poll, udpr_event_data, udpr_event_type, free_enetevent, collect,
  destroy_enetevent,
}
use caffeine_hx.Udpr.Event.Misuse.{collect-destroy_enetevent, poll-calls_leak}
use caffeine_hx.Udpr.Event.Owned.{IsOwned, value-IsOwned}
use caffeine_hx.Udpr.Event.Safe.{
  Call, poll, free, finalize, read_type, read_data, calls, calls-IsOwned,
}
use caffeine_hx.Udpr.Tests.{logged, busy, hello_packet}

abbrev start : Memory logged
start = record { world = busy; blocks = []; values = [] }

start-IsOwned : IsOwned logged start
unfolding slot
start-IsOwned = record { live = λ v a h. cc; single = λ v w a h k. cc }

-- Two events are polled and used in another order; one is freed twice, and one that is no event is freed.
abbrev script : List Call
script =
    poll (some 0) (some 5)
    ∷ poll (some 0) (some 5)
    ∷ read_data 0
    ∷ free 1
    ∷ free 1
    ∷ finalize 0
    ∷ read_type 0
    ∷ free 7
    ∷ []

calls-IsOwned_example :
    (m : Memory logged) × ((calls logged script start ≡ some m) × IsOwned logged m)
calls-IsOwned_example = calls-IsOwned logged script start start-IsOwned

-- After the script both blocks are free, and the packet is destroyed once.
ended :
    calls logged script start
    ≡ some (record {
      world = record { events = disconnected 0 ∷ []; sent = []; destroyed = 1 };
      blocks = none ∷ none ∷ [];
      values = none ∷ none ∷ [];
    })
unfolding calls udpr_poll udpr_event_data slot free_enetevent collect udpr_event_type
ended = refl

abbrev polled : Memory logged
polled = record {
  world = record { events = []; sent = []; destroyed = 0 };
  blocks = some (received 1 0 hello_packet) ∷ [];
  values = some 0 ∷ [];
}

polled-IsOwned : IsOwned logged polled
polled-IsOwned = value-IsOwned logged start polled.world (received 1 0 hello_packet) start-IsOwned

collect-destroy_enetevent_example :
    (m : Memory logged) × ((destroy_enetevent logged 0 polled ≡ result tt m)
      × (collect logged 0 m ≡ fault))
unfolding slot
collect-destroy_enetevent_example = collect-destroy_enetevent logged 0 0 polled polled-IsOwned refl

poll-calls_leak_example :
    (m : Memory logged) × ((calls logged (poll (some 0) (some 5) ∷ free 0 ∷ []) polled ≡ some m)
      × (slot m.blocks 1 ≡ some no_event))
poll-calls_leak_example =
    poll-calls_leak logged 0 5 (free 0 ∷ []) polled polled.world polled-IsOwned refl
