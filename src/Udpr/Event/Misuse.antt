-- ===== src/Udpr/Event/Misuse.antt =====
-- What scripts can do to the memory of dll_src/reliableudp/src/ndll/udprsocket.c, and the block that
-- udpr_poll does not free.
use caffeine_hx.Common.{
  ℕ, ◌≡◌, ◌≢◌, refl, inl, inr, List, [], ◌∷◌, ◌++◌, Option, some, length, ap, ◌∙◌, arith,
}
use caffeine_hx.Common.Slots.{
  slot, slot-append_cases, slot-append_last, slot-append_keeps, slot-set_ne, slot-set_cases,
  slot-lt, slot-set_self,
}
use caffeine_hx.Udpr.Enet.{no_event, nothing, Enet}
use caffeine_hx.Udpr.Event.{
  Memory, result, fault, on_service, udpr_poll, destroy_enetevent, collect, free_block,
}
use caffeine_hx.Udpr.Event.Owned.{
  IsOwned, leak-IsOwned, same_pointer, value-IsOwned, release-IsOwned,
}
use caffeine_hx.Udpr.Event.Safe.{
  Call, poll, run_call, calls, calls_step, Change, same, leak, more, less, run_call-Change,
}

module _ (e : Enet) where
  -- An allocated block that no value has.
  record IsLeaked (a : ℕ) (m : Memory e) : Type 0 where
    allocated : slot m.blocks a ≡ some no_event
    orphan : (v : ℕ) → slot m.values v ≢ some a

  Change-IsLeaked :
      (a : ℕ) (m : Memory e) (r : Option (Memory e))
      → Change e m r
      → IsOwned e m
      → IsLeaked a m
      → (m' : Memory e) × ((r ≡ some m') × (IsOwned e m' × IsLeaked a m'))
  Change-IsLeaked a m _ same o l = (m, (refl, (o, l)))
  Change-IsLeaked a m _ (leak w y) o l = (
    _,
    (
      refl,
      (
        leak-IsOwned e m w y o,
        record { allocated = slot-append_keeps m.blocks y a l.allocated; orphan = l.orphan },
      ),
    ),
  )
  Change-IsLeaked a m _ (more w x) o l = (
    _,
    (
      refl,
      (
        value-IsOwned e m w x o,
        record {
          allocated = slot-append_keeps m.blocks (some x) a l.allocated;
          orphan = λ v h. elim (slot-append_cases m.values (some (length m.blocks)) v h) [
            | inl t ↦
                let below = slot-lt m.blocks a l.allocated in
                let last : a ≡ length m.blocks = same_pointer t.1 in absurd (omega arith)
            | inr t ↦ l.orphan v t
          ];
        },
      ),
    ),
  )
  Change-IsLeaked a m _ (less w v b h) o l = (
    _,
    (
      refl,
      (
        release-IsOwned e m w v b o h,
        record {
          allocated = slot-set_ne m.blocks b a (λ t. l.orphan v (h ∙ ap some t)) ∙ l.allocated;
          orphan = λ u k. l.orphan u (slot-set_cases m.values v u k).1;
        },
      ),
    ),
  )

  calls-IsLeaked :
      (a : ℕ) (cs : List Call) (m : Memory e)
      → IsOwned e m
      → IsLeaked a m
      → (m' : Memory e) × ((calls e cs m ≡ some m') × (slot m'.blocks a ≡ some no_event))
  unfolding calls
  calls-IsLeaked a [] m o l = (m, (refl, l.allocated))
  calls-IsLeaked a (c ∷ cs) m o l =
      let (m', (h, (o', l'))) =
        Change-IsLeaked a m (run_call e c m) (run_call-Change e c m o) o l in
      let (m'', (k, q)) = calls-IsLeaked a cs m' o' l' in (m'', (calls_step e c cs m m' h ∙ k, q))

  -- A poll in which enet_host_service has no event leaves an allocated block that no later polls, frees,
  -- reads and finalizations free, whichever they are.
  pub poll-calls_leak :
      (h t : ℕ) (cs : List Call) (m : Memory e) (w : e.World)
      → IsOwned e m
      → e.host_service h t m.world ≡ (w, nothing)
      → (m' : Memory e) × ((calls e (poll (some h) (some t) ∷ cs) m ≡ some m')
          × (slot m'.blocks (length m.blocks) ≡ some no_event))
  unfolding run_call udpr_poll on_service
  poll-calls_leak h t cs m w o s =
      let polled : Memory e = record {
        world = w;
        blocks = m.blocks ++ some no_event ∷ [];
        values = m.values;
      } in
      let l : IsLeaked (length m.blocks) polled = record {
        allocated = slot-append_last m.blocks (some no_event) (length m.blocks) refl;
        orphan = λ v k.
            let below = slot-lt m.blocks (length m.blocks) (o.live v (length m.blocks) k).1 in
            absurd (omega arith);
      } in
      let first : run_call e (poll (some h) (some t)) m ≡ some polled = rw s refl in
      let (m', (k, q)) =
        calls-IsLeaked (length m.blocks) cs polled (leak-IsOwned e m w (some no_event) o) l in
      (m', (calls_step e (poll (some h) (some t)) cs m polled first ∙ k, q))

  -- A script that calls `destroy_enetevent` on an event leaves a value whose finalizer frees the block a
  -- second time, whatever else it has done before.
  pub collect-destroy_enetevent :
      (v a : ℕ) (m : Memory e)
      → IsOwned e m
      → slot m.values v ≡ some a
      → (m' : Memory e) × ((destroy_enetevent e v m ≡ result tt m') × (collect e v m' ≡ fault))
  unfolding destroy_enetevent collect free_block
  collect-destroy_enetevent v a m o h =
      let (x, k) = o.live v a h in
      (free_block e a x m, (rw (h, k) refl, rw (h, slot-set_self m.blocks a) refl))
