-- ===== src/Fileext/Written.antt =====
-- The loop of `write` of dll_src/fileext/src/fileext.cpp comes to an end.
use caffeine_hx.Common.{
  ℕ, zero, suc, ◌+◌, ◌≤◌, ◌<◌, ◌≡◌, ap, sym, ◌∙◌, true, List, [], ◌∷◌, ◌++◌, append-nil,
  append_assoc, length, length-drop, take, drop, take-append-drop, arith,
}
use caffeine_hx.Common.Int.{ℤ}
use caffeine_hx.Fileext.{Stdio, eintr, Transfer, complete, write_loop}

module _ (e : Stdio) (s : ℕ) (sink : e.World → List ℕ) (faults : e.World → ℕ) where
  -- What fwrite makes of the bytes a stream was given and of the signals that may still interrupt a call:
  -- some bytes more, or an interrupt.
  pub data Takes (b : ℕ) (bs : List ℕ) (w : e.World) : Type 0 where
    takes :
        (k : ℕ)
        → (e.fwrite s (b ∷ bs) w).1 ≡ suc k
        → k ≤ length bs
        → sink (e.fwrite s (b ∷ bs) w).0 ≡ sink w ++ b ∷ take k bs
        → faults (e.fwrite s (b ∷ bs) w).0 ≤ faults w
        → Takes b bs w
    refuses :
        (e.fwrite s (b ∷ bs) w).1 ≡ 0
        → e.ferror s (e.fwrite s (b ∷ bs) w).0 ≡ true
        → e.errno (e.fwrite s (b ∷ bs) w).0 ≡ eintr
        → sink (e.fwrite s (b ∷ bs) w).0 ≡ sink w
        → faults (e.fwrite s (b ∷ bs) w).0 < faults w
        → Takes b bs w

  -- All bytes are counted and appended.
  abbrev pub Writes : List ℕ → ℕ → e.World → Transfer ℕ e.World → Type 0
  Writes left n w r =
      (last : ℤ) × ((w' : e.World) × (r ≡ complete (n + length left) last w')
        × (sink w' ≡ sink w ++ left))

  Writes-more :
      (b : ℕ) (bs : List ℕ) (n k : ℕ) (w w' : e.World) (r : Transfer ℕ e.World)
      → k ≤ length bs
      → sink w' ≡ sink w ++ b ∷ take k bs
      → Writes (drop k bs) (n + suc k) w' r
      → Writes (b ∷ bs) n w r
  Writes-more b bs n k w w' r le grown (last, (w'', p, q)) =
      let left = length-drop k bs in
      let count : n + suc k + length (drop k bs) ≡ n + suc (length bs) = omega arith in
      let all_bytes =
        append_assoc (sink w) (b ∷ take k bs) (drop k bs)
        ∙ ap (λ t. sink w ++ b ∷ t) (take-append-drop k bs) in
      (
        last,
        (
          w'',
          p ∙ ap (λ t. complete t last w'') count,
          q ∙ ap (λ t. t ++ drop k bs) grown ∙ all_bytes,
        ),
      )

  Writes-same :
      (left : List ℕ) (n : ℕ) (w w' : e.World) (r : Transfer ℕ e.World)
      → sink w' ≡ sink w
      → Writes left n w' r
      → Writes left n w r
  Writes-same left n w w' r h (last, (w'', p, q)) = (last, (w'', p, q ∙ ap (λ t. t ++ left) h))

  -- On a stream that takes some of the bytes or is interrupted by a signal, finitely often, the loop of
  -- `write` ends when the fuel is the number of the bytes and of the interrupts: it gives the number of all
  -- bytes, and the stream has been given all of them, in order.
  pub write_loop-Writes :
      ((b : ℕ) (bs : List ℕ) (w : e.World) → Takes b bs w)
      → (fuel : ℕ) (left : List ℕ) (n : ℕ) (last : ℤ) (w : e.World) → length left + faults w ≤ fuel
      → Writes left n w (write_loop e fuel s left n last w)
  unfolding write_loop
  write_loop-Writes each fuel [] n last w le =
      let count : n ≡ n + 0 = omega arith in
      (last, (w, ap (λ t. complete t last w) count, sym (append-nil (sink w))))
  write_loop-Writes each zero (b ∷ bs) n last w le = absurd (omega arith)
  write_loop-Writes each (suc fuel) (b ∷ bs) n last w le = elim (each b bs w) [
    | takes k got short grown fewer ↦
        let left = length-drop k bs in
        rw got (
          Writes-more b bs n k w (e.fwrite s (b ∷ bs) w).0 _ short grown (
            write_loop-Writes each fuel (drop k bs) (n + suc k) last (e.fwrite s (b ∷ bs) w).0
              (omega arith)))
    | refuses got flag err unsunk fewer ↦
        rw (got, flag, err)
          (Writes-same (b ∷ bs) n w (e.fwrite s (b ∷ bs) w).0 _ unsunk
            (write_loop-Writes each fuel (b ∷ bs) n _ (e.fwrite s (b ∷ bs) w).0 (omega arith)))
  ]
