-- ===== src/Fileext/Loop.antt =====
-- The loops of `read` and `write` of dll_src/fileext/src/fileext.cpp come to an end, or do not.
use caffeine_hx.Common.{
  ℕ, zero, suc, ◌+◌, ◌-◌, ◌≤◌, ◌<◌, ◌≡◌, ◌⊎◌, refl, ap, sym, ◌∙◌, true, false, inl, inr, List, [],
  ◌∷◌, ◌++◌, append-nil, append_assoc, length, length-append, take, drop, take-append_ge,
  drop-append_ge, arith,
}
use caffeine_hx.Common.Int.{ℤ}
use caffeine_hx.Fileext.{Stdio, eintr, Transfer, complete, read_loop}

module _ (e : Stdio) (s : ℕ) where
  -- What a stream has left, how often a signal may still interrupt a call, and what fread makes of them:
  -- some bytes, an interrupt, or the end, with the flag of ferror as it was.
  module _ (rest : e.World → List ℕ) (faults : e.World → ℕ) where
    pub data Fed (n : ℕ) (w : e.World) : Type 0 where
      delivers :
          (b : ℕ) (bs : List ℕ)
          → (e.fread s (suc n) w).1 ≡ b ∷ bs
          → length bs ≤ n
          → rest w ≡ (b ∷ bs) ++ rest (e.fread s (suc n) w).0
          → faults (e.fread s (suc n) w).0 ≤ faults w
          → e.ferror s (e.fread s (suc n) w).0 ≡ e.ferror s w
          → Fed n w
      interrupted :
          (e.fread s (suc n) w).1 ≡ []
          → e.ferror s (e.fread s (suc n) w).0 ≡ true
          → e.errno (e.fread s (suc n) w).0 ≡ eintr
          → rest (e.fread s (suc n) w).0 ≡ rest w
          → faults (e.fread s (suc n) w).0 < faults w
          → Fed n w
      ended :
          (e.fread s (suc n) w).1 ≡ []
          → rest w ≡ []
          → rest (e.fread s (suc n) w).0 ≡ []
          → e.ferror s (e.fread s (suc n) w).0 ≡ e.ferror s w
          → Fed n w

    -- The stream has enough bytes, or nothing interrupts a call any more and ferror is false.
    abbrev pub Enough : ℕ → e.World → Type 0
    Enough len w = (len ≤ length (rest w)) ⊎ ((faults w ≡ 0) × (e.ferror s w ≡ false))

    -- A transfer of the next `len` bytes, or of all that is left.
    abbrev pub Reads : ℕ → List ℕ → e.World → Transfer (List ℕ) e.World → Type 0
    Reads len bytes w r =
        (last : ℤ) × ((w' : e.World) × (r ≡ complete (bytes ++ take len (rest w)) last w')
          × (rest w' ≡ drop len (rest w)))

    Reads-more :
        (len : ℕ) (bytes : List ℕ) (w w' : e.World) (b : ℕ) (bs : List ℕ)
        → length bs ≤ len
        → rest w ≡ (b ∷ bs) ++ rest w'
        → (r : Transfer (List ℕ) e.World) → Reads (len - length bs) (bytes ++ b ∷ bs) w' r
        → Reads (suc len) bytes w r
    Reads-more len bytes w w' b bs le split r (last, (w'', p, q)) =
        let size : suc len - suc (length bs) ≡ len - length bs = omega arith in
        let taken : take (suc len) (rest w) ≡ (b ∷ bs) ++ take (len - length bs) (rest w') =
          ap (take (suc len)) split
          ∙ take-append_ge (suc len) (b ∷ bs) (rest w') (omega arith)
          ∙ ap (λ k. (b ∷ bs) ++ take k (rest w')) size in
        let dropped : drop (suc len) (rest w) ≡ drop (len - length bs) (rest w') =
          ap (drop (suc len)) split
          ∙ drop-append_ge (suc len) (b ∷ bs) (rest w') (omega arith)
          ∙ ap (λ k. drop k (rest w')) size in
        let all_bytes =
          append_assoc bytes (b ∷ bs) (take (len - length bs) (rest w'))
          ∙ ap (λ t. bytes ++ t) (sym taken) in
        (last, (w'', p ∙ ap (λ t. complete t last w'') all_bytes, q ∙ sym dropped))

    Reads-same :
        (len : ℕ) (bytes : List ℕ) (w w' : e.World) (r : Transfer (List ℕ) e.World)
        → rest w' ≡ rest w
        → Reads len bytes w' r
        → Reads len bytes w r
    Reads-same len bytes w w' r h (last, (w'', p, q)) =
        (last, (w'', p ∙ ap (λ l. complete (bytes ++ take len l) last w'') h, q ∙ ap (drop len) h))

    Enough-same :
        (len : ℕ) (w w' : e.World)
        → rest w' ≡ rest w
        → faults w' < faults w
        → Enough len w
        → Enough len w'
    Enough-same len w w' h fewer (inl p) = let size = ap length h in inl (omega arith)
    Enough-same len w w' h fewer (inr (p, q)) = absurd (omega arith)

    Reads-end :
        (len : ℕ) (bytes : List ℕ) (last : ℤ) (w w' : e.World)
        → rest w ≡ []
        → rest w' ≡ []
        → Reads (suc len) bytes w (complete bytes last w')
    Reads-end len bytes last w w' h h' =
        let all_bytes : bytes ≡ bytes ++ take (suc len) (rest w) =
          sym (append-nil bytes) ∙ ap (λ l. bytes ++ take (suc len) l) (sym h) in
        (last, (w', ap (λ t. complete t last w') all_bytes, h' ∙ ap (drop (suc len)) (sym h)))

    Enough-end : (len : ℕ) (w : e.World) → rest w ≡ [] → Enough (suc len) w → e.ferror s w ≡ false
    Enough-end len w h (inl p) = let size = ap length h in absurd (omega arith)
    Enough-end len w h (inr (p, q)) = q

    Enough-more :
        (len : ℕ) (w w' : e.World) (b : ℕ) (bs : List ℕ)
        → length bs ≤ len
        → rest w ≡ (b ∷ bs) ++ rest w'
        → faults w' ≤ faults w
        → e.ferror s w' ≡ e.ferror s w
        → Enough (suc len) w
        → Enough (len - length bs) w'
    Enough-more len w w' b bs le split fewer flag (inl p) =
        let size = ap length split ∙ length-append (b ∷ bs) (rest w') in inl (omega arith)
    Enough-more len w w' b bs le split fewer flag (inr (p, q)) = inr (omega arith, flag ∙ q)

    pub read_loop-Reads :
        ((n : ℕ) (w : e.World) → Fed n w)
        → (fuel len : ℕ) (bytes : List ℕ) (last : ℤ) (w : e.World) → Enough len w
        → len + faults w ≤ fuel
        → Reads len bytes w (read_loop e fuel s len bytes last w)
    unfolding read_loop
    read_loop-Reads fed fuel zero bytes last w enough le =
        (last, (w, ap (λ t. complete t last w) (sym (append-nil bytes)), refl))
    read_loop-Reads fed zero (suc len) bytes last w enough le = absurd (omega arith)
    read_loop-Reads fed (suc fuel) (suc len) bytes last w enough le = elim (fed len w) [
      | delivers b bs got short split fewer flag ↦ rw got (
          Reads-more len bytes w (e.fread s (suc len) w).0 b bs short split _ (
            read_loop-Reads fed fuel (len - length bs) (bytes ++ b ∷ bs) last
              (e.fread s (suc len) w).0 (Enough-more len w _ b bs short split fewer flag enough)
              (omega arith)))
      | interrupted got flag err unread fewer ↦
          rw (got, flag, err)
            (Reads-same (suc len) bytes w (e.fread s (suc len) w).0 _ unread (
              read_loop-Reads fed fuel (suc len) bytes _ (e.fread s (suc len) w).0
                (Enough-same (suc len) w _ unread fewer enough) (omega arith)))
      | ended got none_left none_after flag ↦
          let clear = flag ∙ Enough-end len w none_left enough in
          rw (got, clear)
            (Reads-end len bytes last w (e.fread s (suc len) w).0 none_left none_after)
    ]
