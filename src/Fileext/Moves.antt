-- ===== src/Fileext/Moves.antt =====
-- Reads, writes and moves of dll_src/fileext/src/fileext.cpp, on the streams of its files.
use caffeine_hx.Common.{
  ℕ, ◌%◌, ◌≡◌, refl, Bool, true, false, List, [], ◌∷◌, ◌^◌, Option, none, some,
}
use caffeine_hx.Common.Int.{ℤ, pos, negsuc}
use caffeine_hx.Common.Slots.{slot}
use caffeine_hx.Fileext.{
  Stdio, Fio, Transfer, complete, broken, endless, to_int, with_io, status, flush, int_offset,
  offset, tell, seek,
}
use caffeine_hx.Fileext.Prims.{
  Value, Message, file_read_error, file_write_error, byte_out_of_range, System, fail, nat_of,
  after_read, read_io, after_char, read_char_io, after_write, write_io, fileext_read,
  fileext_read_char, fileext_write, fileext_write_char,
}
use caffeine_hx.Fileext.Streams.{IsStdio, Grows, stop}
use caffeine_hx.Fileext.Behind.{Behind, read_loop-Grows, write_loop-Grows}
use caffeine_hx.Fileext.Changes.{
  Changes, Grows-refl, kept, with_file-Changes, with_bytes-Changes, with_int-Changes, if-Changes,
  null-Changes, thrown-Changes, overrun-Changes,
}

module _ (e : Stdio) (std : IsStdio e) where
  pub fail-Changes :
      (m : Message) (i : ℕ) (f : Fio) (w : e.World) (s : System e) (x : List (List ℕ))
      → slot s.files i ≡ some f
      → Grows e s.world w
      → Changes e s (fail e m i f w (record s { strings = x }))
  unfolding Changes
  fail-Changes m i f w s x h g = kept e s i f _ w x h refl g

  after_read-Changes :
      (i : ℕ) (f : Fio) (j : ℕ) (buf : List ℕ) (p : ℕ) (s : System e)
      (r : Transfer (List ℕ) e.World)
      → slot s.files i ≡ some f
      → Behind e (Grows e s.world) r
      → Changes e s (after_read e i f j buf p s r)
  unfolding Changes
  after_read-Changes i f j buf p s (complete bytes last w) h g = kept e s i f _ w _ h refl g
  after_read-Changes i f j buf p s (broken bytes last w) h g =
      fail-Changes file_read_error i f w s _ h g
  after_read-Changes i f j buf p s endless h g = stop

  read_io-Changes :
      (fuel i : ℕ) (f : Fio) (j : ℕ) (buf : List ℕ) (p l : ℕ) (s : System e) (x : Option ℕ)
      → slot s.files i ≡ some f
      → Changes e s (read_io e fuel i f j buf p l s x)
  read_io-Changes fuel i f j buf p l s none h =
      fail-Changes file_read_error i f s.world s s.strings h (Grows-refl e s)
  read_io-Changes fuel i f j buf p l s (some st) h = if-Changes e s _ _ _ (overrun-Changes e s) (
      after_read-Changes i f j buf p s _ h
        (read_loop-Grows e std s.world fuel st l [] f.last_error s.world (Grows-refl e s)))

  pub read-Changes :
      (fuel : ℕ) (v b npos ncount : Value) (s : System e)
      → Changes e s (fileext_read e fuel v b npos ncount s)
  unfolding fileext_read
  read-Changes fuel v b npos ncount s = with_file-Changes e _ v s (λ i f h.
      with_bytes-Changes e _ b s (λ j buf. with_int-Changes e _ npos s (λ p.
        with_int-Changes e _ ncount s (λ l.
          if-Changes e s _ _ _ (null-Changes e s) (read_io-Changes fuel i f j buf _ _ s f.io h)))))

  after_char-Changes :
      (i : ℕ) (f : Fio) (s : System e) (r : Transfer (List ℕ) e.World)
      → slot s.files i ≡ some f
      → Behind e (Grows e s.world) r
      → Changes e s (after_char e i f s r)
  unfolding Changes
  after_char-Changes i f s (complete [] last w) h g = stop
  after_char-Changes i f s (complete (b ∷ bytes) last w) h g = kept e s i f _ w _ h refl g
  after_char-Changes i f s (broken bytes last w) h g = fail-Changes file_read_error i f w s _ h g
  after_char-Changes i f s endless h g = stop

  read_char_io-Changes :
      (fuel i : ℕ) (f : Fio) (s : System e) (x : Option ℕ)
      → slot s.files i ≡ some f
      → Changes e s (read_char_io e fuel i f s x)
  read_char_io-Changes fuel i f s none h =
      fail-Changes file_read_error i f s.world s s.strings h (Grows-refl e s)
  read_char_io-Changes fuel i f s (some st) h =
      after_char-Changes i f s _ h
        (read_loop-Grows e std s.world fuel st 1 [] f.last_error s.world (Grows-refl e s))

  pub read_char-Changes :
      (fuel : ℕ) (v : Value) (s : System e) → Changes e s (fileext_read_char e fuel v s)
  unfolding fileext_read_char
  read_char-Changes fuel v s =
      with_file-Changes e _ v s (λ i f h. read_char_io-Changes fuel i f s f.io h)

  after_write-Changes :
      (i : ℕ) (f : Fio) (s : System e) (r : Transfer ℕ e.World)
      → slot s.files i ≡ some f
      → Behind e (Grows e s.world) r
      → Changes e s (after_write e i f s r)
  unfolding Changes
  after_write-Changes i f s (complete n last w) h g = kept e s i f _ w _ h refl g
  after_write-Changes i f s (broken n last w) h g = fail-Changes file_write_error i f w s _ h g
  after_write-Changes i f s endless h g = stop

  write_io-Changes :
      (fuel i : ℕ) (f : Fio) (buf : List ℕ) (p l : ℕ) (s : System e) (x : Option ℕ)
      → slot s.files i ≡ some f
      → Changes e s (write_io e fuel i f buf p l s x)
  write_io-Changes fuel i f buf p l s none h =
      fail-Changes file_write_error i f s.world s s.strings h (Grows-refl e s)
  write_io-Changes fuel i f buf p l s (some st) h = if-Changes e s _ _ _ (overrun-Changes e s) (
      after_write-Changes i f s _ h
        (write_loop-Grows e std s.world fuel st _ 0 f.last_error s.world (Grows-refl e s)))

  pub write-Changes :
      (fuel : ℕ) (v b npos ncount : Value) (s : System e)
      → Changes e s (fileext_write e fuel v b npos ncount s)
  unfolding fileext_write
  write-Changes fuel v b npos ncount s = with_file-Changes e _ v s (λ i f h.
      with_bytes-Changes e _ b s (λ j buf. with_int-Changes e _ npos s (λ p.
        with_int-Changes e _ ncount s (λ l.
          if-Changes e s _ _ _ (null-Changes e s) (write_io-Changes fuel i f buf _ _ s f.io h)))))

  pub write_char-Changes :
      (fuel : ℕ) (v nc : Value) (s : System e) → Changes e s (fileext_write_char e fuel v nc s)
  unfolding fileext_write_char
  write_char-Changes fuel v nc s = with_file-Changes e _ v s (λ i f h.
      with_int-Changes e _ nc s (λ c.
        if-Changes e s _ _ _ (thrown-Changes e s byte_out_of_range s.world (Grows-refl e s))
          (write_io-Changes fuel i f (nat_of e c ∷ []) 0 1 s f.io h)))

  -- A method that leaves the stream, and closes none.
  abbrev pub Leaves : Fio → e.World → ℤ × Fio × e.World → Type 0
  Leaves f w (r, f', w') = (f'.io ≡ f.io) × Grows e w w'

  with_io-Leaves :
      (f : Fio) (w : e.World) (on_stream : ℕ → ℤ × Fio × e.World) (x : Option ℕ)
      → ((st : ℕ) → Leaves f w (on_stream st))
      → Leaves f w (with_io e f w on_stream x)
  with_io-Leaves f w on_stream none each = (refl, λ t a. a)
  with_io-Leaves f w on_stream (some st) each = each st

  status-Leaves :
      (f : Fio) (w : e.World) (r : e.World × Bool) → Grows e w r.0 → Leaves f w (status e f r)
  status-Leaves f w (w', true) g = (refl, g)
  status-Leaves f w (w', false) g = (refl, g)

  offset-Leaves :
      (f : Fio) (w : e.World) (r : e.World × Option ℕ) → Grows e w r.0 → Leaves f w (offset e f r)
  offset-Leaves f w (w', none) g = (refl, g)
  offset-Leaves f w (w', some n) g = cut (to_int (n % 2 ^ 32))
    where
      cut : (k : ℤ) → Leaves f w (int_offset e f w' k)
      cut (pos k) = (refl, g)
      cut (negsuc k) = (refl, g)

  pub flush-Leaves : (f : Fio) (w : e.World) → Leaves f w (flush e f w)
  unfolding flush
  flush-Leaves f w =
      with_io-Leaves f w _ f.io (λ st. status-Leaves f w (e.fflush st w) (std.fflush_grows st w))

  pub tell-Leaves : (f : Fio) (w : e.World) → Leaves f w (tell e f w)
  unfolding tell
  tell-Leaves f w =
      with_io-Leaves f w (λ st. offset e f (e.ftell st w)) f.io
        (λ st. offset-Leaves f w (e.ftell st w) (std.ftell_grows st w))

  pub seek-Leaves : (a b : ℤ) (f : Fio) (w : e.World) → Leaves f w (seek e a b f w)
  unfolding seek
  seek-Leaves a b f w =
      with_io-Leaves f w _ f.io
        (λ st. status-Leaves f w (e.fseek st a b w) (std.fseek_grows st a b w))
