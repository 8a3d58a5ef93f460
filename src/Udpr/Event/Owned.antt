-- ===== src/Udpr/Event/Owned.antt =====
-- Who owns a block of dll_src/reliableudp/src/ndll/udprsocket.c, and the three changes that its primitives
-- make to the blocks: one more, one more with a value, one freed with its value.
use caffeine_hx.Common.{
  ℕ, ◌≡◌, ◌≢◌, refl, inl, inr, false, [], ◌∷◌, ◌++◌, Option, none, some, set, length, ◌==◌, arith,
  ap, sym, ◌∙◌,
}
use caffeine_hx.Udpr.Enet.{Event, Enet}
use caffeine_hx.Common.Slots.{
  slot, slot-append_cases, slot-append_last, slot-append, slot-set_ne, slot-set_cases, slot-lt,
}
use caffeine_hx.Udpr.Event.{Memory}

pub same_pointer : {a b : ℕ} → some a ≡ some b → b ≡ a
same_pointer h = cc

module _ (e : Enet) where
  -- Each value of the kind has an allocated block of its own.
  pub record IsOwned (m : Memory e) : Type 0 where
    pub live : (v a : ℕ) → slot m.values v ≡ some a → (x : Event) × (slot m.blocks a ≡ some x)
    pub single : (v w a : ℕ) → slot m.values v ≡ some a → slot m.values w ≡ some a → v ≡ w

  pub slot-block_append :
      (m : Memory e) (v a : ℕ) (y : Option Event)
      → IsOwned m
      → slot m.values v ≡ some a
      → (a ≢ length m.blocks) × (slot (m.blocks ++ y ∷ []) a ≡ slot m.blocks a)
  slot-block_append m v a y o h =
      let below = slot-lt m.blocks a (o.live v a h).1 in
      let other : (a == length m.blocks) ≡ false = ground arith in
      (ground arith, slot-append m.blocks y a ∙ rw other refl)

  -- A block more, which no value has.
  pub leak-IsOwned :
      (m : Memory e) (w : e.World) (y : Option Event)
      → IsOwned m
      → IsOwned (record m { world = w; blocks = m.blocks ++ y ∷ [] })
  leak-IsOwned m w y o = record {
    live = λ v a h. ((o.live v a h).0, (slot-block_append m v a y o h).1 ∙ (o.live v a h).1);
    single = o.single;
  }

  -- A new block, and the value that owns it.
  pub value-IsOwned :
      (m : Memory e) (w : e.World) (x : Event)
      → IsOwned m
      → IsOwned (record {
        world = w;
        blocks = m.blocks ++ some x ∷ [];
        values = m.values ++ some (length m.blocks) ∷ [];
      })
  value-IsOwned m w x o = record {
    live = λ v a h. elim (slot-append_cases m.values (some (length m.blocks)) v h) [
      | inl t ↦ (x, slot-append_last m.blocks (some x) a (same_pointer t.1))
      | inr t ↦ ((o.live v a t).0, (slot-block_append m v a (some x) o t).1 ∙ (o.live v a t).1)
    ];
    single = λ u v a h k. elim (slot-append_cases m.values (some (length m.blocks)) u h) [
      | inl t ↦ elim (slot-append_cases m.values (some (length m.blocks)) v k) [
        | inl s ↦ t.0 ∙ sym s.0
        | inr s ↦ absurd ((slot-block_append m v a (some x) o s).0 (same_pointer t.1))
      ]
      | inr t ↦ elim (slot-append_cases m.values (some (length m.blocks)) v k) [
        | inl s ↦ absurd ((slot-block_append m u a (some x) o t).0 (same_pointer s.1))
        | inr s ↦ o.single u v a t s
      ]
    ];
  }

  -- A block is freed, and its value loses the kind.
  pub release-IsOwned :
      (m : Memory e) (w : e.World) (v a : ℕ)
      → IsOwned m
      → slot m.values v ≡ some a
      → IsOwned (record { world = w; blocks = set m.blocks a none; values = set m.values v none })
  release-IsOwned m w v a o h = record {
    live = λ u b k.
        let old = slot-set_cases m.values v u k in
        let apart : a ≢ b = λ t. old.0 (o.single v u b (h ∙ ap some t) old.1) in
        ((o.live u b old.1).0, slot-set_ne m.blocks a b apart ∙ (o.live u b old.1).1);
    single = λ u t b k l.
        o.single u t b (slot-set_cases m.values v u k).1 (slot-set_cases m.values v t l).1;
  }
