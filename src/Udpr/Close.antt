-- ===== src/Udpr/Close.antt =====
-- udpr_close, udpr_close_graceful and udpr_close_now of
-- dll_src/reliableudp/src/ndll/udprsocket.c.
use caffeine_hx.Common.{
  ℕ, zero, suc, ◌<◌, ◌≡◌, refl, ◌⊎◌, inl, inr, List, [], ◌∷◌, none, some, length, arith,
}
use caffeine_hx.Udpr.Enet.{
  Packet, Event, no_event, connected, received, disconnected, Service, failed, nothing, event, Enet,
  Arg, host, peer,
}

-- The primitive returns true, calls neko_error, dereferences NULL, or has not ended on its fuel.
pub data Closing (W : Type 0) : Type 0 where
  closed : W → Closing W
  refused : W → Closing W
  undefined : Closing W
  out_of_fuel : Closing W

module _ (e : Enet) where
  -- The body of the loop of udpr_close, behind the wait; `again` is the next round. Packets are dropped,
  -- and a disconnect of any peer ends the loop.
  unfoldable pub on_service : (e.World → Closing e.World) → ℕ → e.World × Service → Closing e.World
  on_service again p (w, failed) = closed (e.peer_reset p w)
  on_service again p (w, nothing) = closed (e.peer_reset p w)
  on_service again p (w, event (received q c packet)) = again (e.packet_destroy packet w)
  on_service again p (w, event (disconnected q)) = closed w
  on_service again p (w, event _) = again w

  -- The loop: each wait is three seconds.
  unfoldable pub close_loop : ℕ → ℕ → ℕ → e.World → Closing e.World
  unfolding on_service
  close_loop zero h p w = out_of_fuel
  close_loop (suc fuel) h p w =
      on_service (λ w'. close_loop fuel h p w') p (e.host_service h 3000 w)

  -- `udpr_close(h, p)`
  unfoldable pub udpr_close : ℕ → Arg → Arg → e.World → Closing e.World
  unfolding close_loop
  udpr_close fuel (host (some h)) (peer (some p)) w = close_loop fuel h p (e.peer_disconnect p w)
  udpr_close fuel (host h) (peer p) w = undefined
  udpr_close fuel _ _ w = refused w

  unfoldable pub udpr_close_graceful : Arg → e.World → Closing e.World
  udpr_close_graceful (peer (some p)) w = closed (e.peer_disconnect p w)
  udpr_close_graceful (peer none) w = undefined
  udpr_close_graceful _ w = refused w

  unfoldable pub udpr_close_now : Arg → e.World → Closing e.World
  udpr_close_now (peer (some p)) w = closed (e.peer_disconnect_now p w)
  udpr_close_now (peer none) w = undefined
  udpr_close_now _ w = refused w

  -- ENet delivers events that are no disconnects, one for each wait; the packets are destroyed.
  pub data Delivers (h : ℕ) : List Event → e.World → e.World → Type 0 where
    stop : {w : e.World} → Delivers h [] w w
    packet :
        {q c : ℕ} {x : Packet} {es : List Event} {w w1 w2 : e.World}
        → e.host_service h 3000 w ≡ (w1, event (received q c x))
        → Delivers h es (e.packet_destroy x w1) w2
        → Delivers h (received q c x ∷ es) w w2
    connect :
        {q : ℕ} {es : List Event} {w w1 w2 : e.World}
        → e.host_service h 3000 w ≡ (w1, event (connected q))
        → Delivers h es w1 w2
        → Delivers h (connected q ∷ es) w w2
    empty :
        {es : List Event} {w w1 w2 : e.World}
        → e.host_service h 3000 w ≡ (w1, event no_event)
        → Delivers h es w1 w2
        → Delivers h (no_event ∷ es) w w2

  -- The last wait: a disconnect of any peer, or none in time, or an error. The state that it leaves.
  abbrev pub Last : ℕ → ℕ → e.World → e.World → Type 0
  Last h p w w' =
      ((q : ℕ) × (e.host_service h 3000 w ≡ (w', event (disconnected q))))
      ⊎ ((w1 : e.World) × ((e.host_service h 3000 w ≡ (w1, nothing))
            ⊎ (e.host_service h 3000 w ≡ (w1, failed)))
          × (w' ≡ e.peer_reset p w1))

  loop-Last :
      (fuel h p : ℕ) (w w' : e.World) → Last h p w w' → close_loop (suc fuel) h p w ≡ closed w'
  unfolding close_loop on_service
  loop-Last fuel h p w w' (inl (q, s)) = rw s refl
  loop-Last fuel h p w w' (inr (w1, inl s, r)) = rw (s, r) refl
  loop-Last fuel h p w w' (inr (w1, inr s, r)) = rw (s, r) refl

  loop-ends :
      (fuel h p : ℕ) (es : List Event) (w w1 w' : e.World)
      → Delivers h es w w1
      → Last h p w1 w'
      → length es < fuel
      → close_loop fuel h p w ≡ closed w'
  unfolding close_loop on_service
  loop-ends zero h p es w w1 w' d l f = absurd (omega arith)
  loop-ends (suc fuel) h p es w w1 w' stop l f = loop-Last fuel h p w w' l
  loop-ends (suc fuel) h p es w w1 w' (packet s d) l f =
      rw s (loop-ends fuel h p _ _ w1 w' d l (omega arith))
  loop-ends (suc fuel) h p es w w1 w' (connect s d) l f =
      rw s (loop-ends fuel h p _ _ w1 w' d l (omega arith))
  loop-ends (suc fuel) h p es w w1 w' (empty s d) l f =
      rw s (loop-ends fuel h p _ _ w1 w' d l (omega arith))

  -- udpr_close, where ENet delivers finitely many events before a disconnect, a timeout or an error:
  -- with more fuel than events it ends, every packet delivered is destroyed, and the peer is reset
  -- exactly where no disconnect came.
  pub udpr_close-ends :
      (fuel h p : ℕ) (es : List Event) (w w1 w' : e.World)
      → Delivers h es (e.peer_disconnect p w) w1
      → Last h p w1 w'
      → length es < fuel
      → udpr_close fuel (host (some h)) (peer (some p)) w ≡ closed w'
  unfolding udpr_close
  udpr_close-ends fuel h p es w w1 w' d l f =
      loop-ends fuel h p es (e.peer_disconnect p w) w1 w' d l f
