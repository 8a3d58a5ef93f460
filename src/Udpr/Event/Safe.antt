-- ===== src/Udpr/Event/Safe.antt =====
-- Any order of the primitives on events of dll_src/reliableudp/src/ndll/udprsocket.c and of collections.
use caffeine_hx.Common.{
  ℕ, ◌≡◌, refl, List, [], ◌∷◌, ◌++◌, ◌⊎◌, inl, inr, Option, none, some, length, set, ap, ◌∙◌,
}
use caffeine_hx.Common.Slots.{slot, set-slot}
use caffeine_hx.Udpr.Enet.{
  Event, no_event, connected, received, disconnected, Service, failed, nothing, event, Enet,
}
use caffeine_hx.Udpr.Event.{
  Memory, Outcome, result, neko_error, fault, slot, on_service, udpr_poll, with_event, drop_packet,
  free_block, free_enetevent, destroy_enetevent, collect, udpr_event_type, udpr_event_data,
  udpr_event_channel,
}
use caffeine_hx.Udpr.Event.Owned.{IsOwned, leak-IsOwned, value-IsOwned, release-IsOwned}

-- What a script or the collector does: the arguments of a poll, or the value.
pub data Call : Type 0 where
  poll : Option ℕ → Option ℕ → Call
  free : ℕ → Call
  finalize : ℕ → Call
  read_type : ℕ → Call
  read_data : ℕ → Call
  read_channel : ℕ → Call

module _ (e : Enet) where
  -- What a call leaves; a script may catch the exception of neko_error. `none` where memory is misused.
  abbrev pub left : {A : Type 0} → Outcome (Memory e) A → Option (Memory e)
  left (result r m) = some m
  left (neko_error m) = some m
  left fault = none

  unfoldable pub run_call : Call → Memory e → Option (Memory e)
  run_call (poll h timeout) m = left (udpr_poll e h timeout m)
  run_call (free v) m = left (free_enetevent e v m)
  run_call (finalize v) m = left (collect e v m)
  run_call (read_type v) m = left (udpr_event_type e v m)
  run_call (read_data v) m = left (udpr_event_data e v m)
  run_call (read_channel v) m = left (udpr_event_channel e v m)

  abbrev pub on_left : (Memory e → Option (Memory e)) → Option (Memory e) → Option (Memory e)
  on_left rest none = none
  on_left rest (some m) = rest m

  unfoldable pub calls : List Call → Memory e → Option (Memory e)
  unfolding run_call
  calls [] m = some m
  calls (c ∷ cs) m = on_left (calls cs) (run_call c m)

  -- What a call may leave: the same, a block more, a value more, or a value and its block less.
  pub data Change (m : Memory e) : Option (Memory e) → Type 0 where
    same : Change m (some m)
    leak :
        (w : e.World) (y : Option Event)
        → Change m (some (record { world = w; blocks = m.blocks ++ y ∷ []; values = m.values }))
    more :
        (w : e.World) (x : Event)
        → Change m (
            some (record {
              world = w;
              blocks = m.blocks ++ some x ∷ [];
              values = m.values ++ some (length m.blocks) ∷ [];
            }))
    less :
        (w : e.World) (v a : ℕ)
        → slot m.values v ≡ some a
        → Change m (
            some (record { world = w; blocks = set m.blocks a none; values = set m.values v none }))

  on_service-Change : (m : Memory e) (s : e.World × Service) → Change m (left (on_service e m s))
  unfolding on_service
  on_service-Change m (w, failed) = leak w (some no_event)
  on_service-Change m (w, nothing) = leak w (some no_event)
  on_service-Change m (w, event no_event) = leak w none
  on_service-Change m (w, event (connected p)) = more w (connected p)
  on_service-Change m (w, event (received p c x)) = more w (received p c x)
  on_service-Change m (w, event (disconnected p)) = more w (disconnected p)

  poll-Change : (h t : Option ℕ) (m : Memory e) → Change m (left (udpr_poll e h t m))
  unfolding udpr_poll
  poll-Change none t m = same
  poll-Change (some h) none m = same
  poll-Change (some h) (some t) m = on_service-Change m (e.host_service h t m.world)

  -- The block of a value that has the kind is allocated.
  pub pointer_cases :
      (m : Memory e) (v : ℕ)
      → IsOwned e m
      → (slot m.values v ≡ none)
        ⊎ ((a : ℕ) × ((x : Event) × ((slot m.values v ≡ some a) × (slot m.blocks a ≡ some x))))
  pointer_cases m v o = go (slot m.values v) refl
    where
      go :
          (p : Option ℕ)
          → slot m.values v ≡ p
          → (slot m.values v ≡ none)
            ⊎ ((a : ℕ) × ((x : Event) × ((slot m.values v ≡ some a) × (slot m.blocks a ≡ some x))))
      go none h = inl h
      go (some a) h = inr (a, ((o.live v a h).0, (h, (o.live v a h).1)))

  on_value-Change :
      {A : Type 0} (m : Memory e) (v : ℕ) (use_event : ℕ → Event → Outcome (Memory e) A)
      → IsOwned e m
      → ((a : ℕ) (x : Event) → slot m.values v ≡ some a → Change m (left (use_event a x)))
      → (other : Outcome (Memory e) A) → left other ≡ some m
      → Change m (left (with_event e other use_event v m))
  on_value-Change m v use_event o each other unchanged = elim (pointer_cases m v o) [
    | inl h ↦ rw (h, unchanged) same
    | inr (a, (x, (h, k))) ↦ rw (h, k) (each a x h)
  ]

  pub run_call-Change : (c : Call) (m : Memory e) → IsOwned e m → Change m (run_call c m)
  unfolding run_call free_enetevent collect destroy_enetevent udpr_event_type udpr_event_data
      udpr_event_channel free_block
  run_call-Change (poll h t) m o = poll-Change h t m
  run_call-Change (free v) m o =
      on_value-Change m v _ o (λ a x h. less (drop_packet e x m.world) v a h) (neko_error m) refl
  run_call-Change (finalize v) m o = elim (pointer_cases m v o) [
    | inl h ↦ rw (h, set-slot m.values v h) same
    | inr (a, (x, (h, k))) ↦ rw (h, k) (less (drop_packet e x m.world) v a h)
  ]
  run_call-Change (read_type v) m o = on_value-Change m v _ o (λ a x h. same) (neko_error m) refl
  run_call-Change (read_data v) m o = on_value-Change m v _ o (λ a x h. same) (neko_error m) refl
  run_call-Change (read_channel v) m o = on_value-Change m v _ o (λ a x h. same) (neko_error m) refl

  pub Change-IsOwned :
      (m : Memory e) (r : Option (Memory e))
      → Change m r
      → IsOwned e m
      → (m' : Memory e) × ((r ≡ some m') × IsOwned e m')
  Change-IsOwned m _ same o = (m, (refl, o))
  Change-IsOwned m _ (leak w y) o = (_, (refl, leak-IsOwned e m w y o))
  Change-IsOwned m _ (more w x) o = (_, (refl, value-IsOwned e m w x o))
  Change-IsOwned m _ (less w v a h) o = (_, (refl, release-IsOwned e m w v a o h))

  pub calls_step :
      (c : Call) (cs : List Call) (m m' : Memory e)
      → run_call c m ≡ some m'
      → calls (c ∷ cs) m ≡ calls cs m'
  unfolding calls
  calls_step c cs m m' h = ap (on_left (calls cs)) h

  -- From memory in which each value of the kind has an allocated block of its own, no sequence of polls,
  -- frees, reads and finalizations, in any order and on any values, uses a block that is freed or frees one
  -- twice, and it ends in such memory.
  pub calls-IsOwned :
      (cs : List Call) (m : Memory e)
      → IsOwned e m
      → (m' : Memory e) × ((calls cs m ≡ some m') × IsOwned e m')
  unfolding calls
  calls-IsOwned [] m o = (m, (refl, o))
  calls-IsOwned (c ∷ cs) m o =
      let (m', (h, o')) = Change-IsOwned m (run_call c m) (run_call-Change c m o) o in
      let (m'', (k, o'')) = calls-IsOwned cs m' o' in (m'', (calls_step c cs m m' h ∙ k, o''))
