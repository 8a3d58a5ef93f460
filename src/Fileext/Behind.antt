-- ===== src/Fileext/Behind.antt =====
-- The world behind the loops of `read` and `write` of dll_src/fileext/src/fileext.cpp.
use caffeine_hx.Common.{ℕ, zero, suc, Bool, true, false, List, [], ◌∷◌}
use caffeine_hx.Common.Int.{ℤ}
use caffeine_hx.Fileext.{
  Stdio, Transfer, complete, broken, endless, after_fread, read_loop, after_fwrite, write_loop,
}
use caffeine_hx.Fileext.Streams.{IsStdio, Grows}

module _ (e : Stdio) where
  -- What holds of the world behind a loop.
  abbrev pub Behind : {A : Type 0} → (e.World → Type 0) → Transfer A e.World → Type 0
  Behind P (complete a last w) = P w
  Behind P (broken a last w) = P w
  Behind P endless = Unit {0}

  after_fread-Behind :
      (P : e.World → Type 0) (again : ℕ → List ℕ → ℤ → e.World → Transfer (List ℕ) e.World)
      (len : ℕ) (bytes : List ℕ) (last : ℤ) (w : e.World) (got : List ℕ) (a b : Bool)
      → P w
      → ((len : ℕ) (bytes : List ℕ) (last : ℤ) → Behind P (again len bytes last w))
      → Behind P (after_fread e again len bytes last w got a b)
  after_fread-Behind P again len bytes last w (x ∷ xs) a b p h = h _ _ _
  after_fread-Behind P again len bytes last w [] false b p h = p
  after_fread-Behind P again len bytes last w [] true true p h = h _ _ _
  after_fread-Behind P again len bytes last w [] true false p h = p

  pub read_loop-Grows :
      IsStdio e
      → (w0 : e.World) (fuel s len : ℕ) (bytes : List ℕ) (last : ℤ) (w : e.World) → Grows e w0 w
      → Behind (Grows e w0) (read_loop e fuel s len bytes last w)
  unfolding read_loop
  read_loop-Grows std w0 fuel s zero bytes last w g = g
  read_loop-Grows std w0 zero s (suc len) bytes last w g = tt
  read_loop-Grows std w0 (suc fuel) s (suc len) bytes last w g =
      let w' : e.World = (e.fread s (suc len) w).0 in
      let g' : Grows e w0 w' = λ t a. std.fread_grows s (suc len) w t (g t a) in
      after_fread-Behind (Grows e w0) (read_loop e fuel s) len bytes last w' _ _ _ g'
        (λ len bytes last. read_loop-Grows std w0 fuel s len bytes last w' g')

  after_fwrite-Behind :
      (P : e.World → Type 0) (again : List ℕ → ℕ → ℤ → e.World → Transfer ℕ e.World) (left : List ℕ)
      (n : ℕ) (last : ℤ) (w : e.World) (got : ℕ) (a : Bool)
      → P w
      → ((left : List ℕ) (n : ℕ) (last : ℤ) → Behind P (again left n last w))
      → Behind P (after_fwrite e again left n last w got a)
  after_fwrite-Behind P again left n last w (suc k) a p h = h _ _ _
  after_fwrite-Behind P again left n last w zero true p h = h _ _ _
  after_fwrite-Behind P again left n last w zero false p h = p

  pub write_loop-Grows :
      IsStdio e
      → (w0 : e.World) (fuel s : ℕ) (left : List ℕ) (n : ℕ) (last : ℤ) (w : e.World) → Grows e w0 w
      → Behind (Grows e w0) (write_loop e fuel s left n last w)
  unfolding write_loop
  write_loop-Grows std w0 fuel s [] n last w g = g
  write_loop-Grows std w0 zero s (b ∷ left) n last w g = tt
  write_loop-Grows std w0 (suc fuel) s (b ∷ left) n last w g =
      let w' : e.World = (e.fwrite s (b ∷ left) w).0 in
      let g' : Grows e w0 w' = λ t a. std.fwrite_grows s (b ∷ left) w t (g t a) in
      after_fwrite-Behind (Grows e w0) (write_loop e fuel s) (b ∷ left) n last w' _ _ g'
        (λ left n last. write_loop-Grows std w0 fuel s left n last w' g')
