-- ===== src/Udpr/Tests.antt =====
-- An ENet whose events are a list, and the theorems at concrete inputs.
use caffeine_hx.Common.{
  ℕ, ◌+◌, ◌≡◌, refl, inl, true, false, List, [], ◌∷◌, none, some, ltb, arith, if◌then◌else◌,
}
use caffeine_hx.Common.Int.{pos}
use caffeine_hx.Udpr.Close.{closed, udpr_close, udpr_close-ends, stop, packet, connect}
use caffeine_hx.Udpr.Enet.{
  Packet, Event, connected, received, disconnected, Service, nothing, event, Enet, int, string,
  bool, host, peer,
}
use caffeine_hx.Udpr.Handle.{peer_to_handle, handle_to_peer, handle_to_peer-peer_to_handle}
use caffeine_hx.Udpr.Send.{Sent, udpr_send, udpr_send-Sent}

-- The events to come, the packets sent, and the number of packets destroyed.
pub record Log : Type 0 where
  pub events : List Event
  pub sent : List Packet
  pub destroyed : ℕ

abbrev deliver : Log → List Event → Log × Service
deliver l [] = (l, nothing)
deliver l (x ∷ events) = (record l { events = events }, event x)

abbrev pub logged : Enet
logged = record {
  World = Log;
  host_service = λ h t l. deliver l l.events;
  peer_send = λ p c x l. (record l { sent = x ∷ l.sent }, false);
  peer_disconnect = λ p l. l;
  peer_disconnect_now = λ p l. l;
  peer_reset = λ p l. l;
  packet_destroy = λ x l. record l { destroyed = l.destroyed + 1 };
}

abbrev pub hello : List ℕ
hello = b'h' ∷ b'e' ∷ b'y' ∷ []

abbrev pub hello_packet : Packet
hello_packet = record { bytes = hello; reliable = true }

abbrev pub busy : Log
busy = record {
  events = received 1 0 hello_packet ∷ connected 2 ∷ disconnected 0 ∷ [];
  sent = [];
  destroyed = 0;
}

udpr_close-ends_example :
    udpr_close logged 9 (host (some 0)) (peer (some 0)) busy
    ≡ closed (record { events = []; sent = []; destroyed = 1 })
udpr_close-ends_example =
    udpr_close-ends logged 9 0 0 (received 1 0 hello_packet ∷ connected 2 ∷ []) busy
      (record { events = disconnected 0 ∷ []; sent = []; destroyed = 1 })
      (record { events = []; sent = []; destroyed = 1 }) (packet refl (connect refl stop))
      (inl (0, refl)) (omega arith)

udpr_send-Sent_example :
    let r =
      udpr_send logged
        (peer (some 0))
        (string hello)
        (int (pos 1))
        (int (pos 2))
        (int (pos 0))
        (bool true)
        busy in
    Sent logged hello r.1 busy r.0
udpr_send-Sent_example = udpr_send-Sent logged (some 0) hello (pos 1) (pos 2) (pos 0) true busy

handle_to_peer-peer_to_handle_example :
    handle_to_peer (0 ∷ 1 ∷ 2 ∷ []) (peer_to_handle (0 ∷ 1 ∷ 2 ∷ []) 1)
    ≡ (if ltb 1 3 then some 1 else none)
handle_to_peer-peer_to_handle_example =
    handle_to_peer-peer_to_handle (0 ∷ 1 ∷ 2 ∷ []) 1 (refl, (refl, (refl, tt))) (omega arith)
