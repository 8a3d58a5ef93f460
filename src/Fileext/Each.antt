-- ===== src/Fileext/Each.antt =====
-- Each primitive of dll_src/fileext/src/fileext.cpp, on the streams of its files.
use caffeine_hx.Common.{
  ℕ, zero, suc, ◌≡◌, refl, sym, ◌∙◌, Bool, List, [], ◌∷◌, not, Option, none, some, length, set,
  ◌==◌,
}
use caffeine_hx.Common.Int.{ℤ, pos, negsuc, to_size}
use caffeine_hx.Common.Slots.{slot}
use caffeine_hx.Fileext.{
  Stdio, Fio, Transfer, complete, broken, endless, close_io, close, opened, open_file, open_tmpfile,
  tell, seek, rewind_file, eof_io, eof,
}
use caffeine_hx.Fileext.Prims.{
  Value, bool, Message, unable_to_open_contents, out_of_memory, file_flush_error, file_tell_error,
  whence_out_of_range, file_seek_error, file_rewind_error, unable_to_open, unable_to_create, System,
  result, put, new_fio, negative, fileext_open, fileext_tmpfile_open, fileext_close,
}
use caffeine_hx.Fileext.Position.{
  true_or, true_unless_negative, number_or, fileext_flush, fileext_tell, fileext_seek,
  fileext_rewind, fileext_feof, after_contents, contents_of, contents_io, fileext_contents,
  freed_file, fileext_free_file,
}
use caffeine_hx.Fileext.Streams.{IsStdio, Grows, Opens, Change, io_of}
use caffeine_hx.Fileext.Moves.{Leaves, fail-Changes, flush-Leaves, tell-Leaves, seek-Leaves}
use caffeine_hx.Fileext.Behind.{Behind, read_loop-Grows}
use caffeine_hx.Fileext.Changes.{
  Changes, Grows-refl, unchanged, kept, with_file-Changes, with_string-Changes, with_int-Changes,
  if-Changes, without_stream, thrown-Changes, undefined-Changes, unending-Changes, string-Changes,
  made-Changes,
}

module _ (e : Stdio) (std : IsStdio e) where
  pub open-Changes : (name mode : Value) (s : System e) → Changes e s (fileext_open e name mode s)
  unfolding fileext_open open_file close
  open-Changes name mode s = with_string-Changes e _ name s (λ n.
      with_string-Changes e _ mode s
        (λ m. made-Changes e unable_to_open s (e.fopen n m s.world) (std.fopen_opens n m s.world)))

  pub tmpfile-Changes : (s : System e) → Changes e s (fileext_tmpfile_open e s)
  unfolding fileext_tmpfile_open open_tmpfile close Changes
  tmpfile-Changes s =
      made-Changes e unable_to_create s (e.tmpfile s.world) (std.tmpfile_opens s.world)

  -- Behind `close()` of a file of its own stream, which is then kept closed or deleted.
  close_io-Change :
      (i : ℕ) (f : Fio) (y : Fio → Option Fio) (s : System e)
      → slot s.files i ≡ some f
      → ((g : Fio) → g.io ≡ none → io_of e (y g) ≡ none)
      → (x : Option ℕ) → f.io ≡ x
      → (let (f', w) = close_io e f s.world x in
          Change e s
            (some (record { world = w; files = set s.files i (y f'); strings = s.strings })))
  close_io-Change i f y s h q none p = kept e s i f _ _ _ h (q _ refl ∙ sym p) (Grows-refl e s)
  close_io-Change i f y s h q (some st) p =
      without_stream e s i st f _ _ h p (q _ refl) (λ t ne a. std.fclose_closes st t s.world ne a)

  pub close-Changes : (v : Value) (s : System e) → Changes e s (fileext_close e v s)
  unfolding fileext_close close Changes
  close-Changes v s =
      with_file-Changes e _ v s (λ i f h. close_io-Change i f some s h (λ g p. p) f.io refl)

  pub free_file-Change : (i : ℕ) (s : System e) → Change e s (some (fileext_free_file e i s))
  unfolding fileext_free_file close
  free_file-Change i s = go (slot s.files i) refl
    where
      go : (x : Option Fio) → slot s.files i ≡ x → Change e s (some (freed_file e i s x))
      go none h = unchanged e s
      go (some f) h = close_io-Change i f (λ g. none) s h (λ g p. refl) f.io refl

  true_or-Changes :
      (m : Message) (i : ℕ) (f : Fio) (s : System e) (r : ℤ × Fio × e.World)
      → slot s.files i ≡ some f
      → Leaves e std f s.world r
      → Changes e s (true_or e m i s r)
  unfolding Changes
  true_or-Changes m i f s (pos zero, f', w) h (p, g) = kept e s i f _ w _ h p g
  true_or-Changes m i f s (pos (suc n), f', w) h (p, g) = kept e s i f _ w _ h p g
  true_or-Changes m i f s (negsuc n, f', w) h (p, g) = kept e s i f _ w _ h p g

  not_negative-Changes :
      (m : Message) (i : ℕ) (f : Fio) (s : System e) (r : ℤ × Fio × e.World)
      → slot s.files i ≡ some f
      → Leaves e std f s.world r
      → Changes e s (true_unless_negative e m i s r)
  unfolding Changes
  not_negative-Changes m i f s (pos n, f', w) h (p, g) = kept e s i f _ w _ h p g
  not_negative-Changes m i f s (negsuc n, f', w) h (p, g) = kept e s i f _ w _ h p g

  number_or-Changes :
      (m : Message) (i : ℕ) (f : Fio) (s : System e) (r : ℤ × Fio × e.World)
      → slot s.files i ≡ some f
      → Leaves e std f s.world r
      → Changes e s (number_or e m i s r)
  unfolding Changes
  number_or-Changes m i f s (pos n, f', w) h (p, g) = kept e s i f _ w _ h p g
  number_or-Changes m i f s (negsuc n, f', w) h (p, g) = kept e s i f _ w _ h p g

  eof-Change :
      (i : ℕ) (f : Fio) (s : System e)
      → slot s.files i ≡ some f
      → (x : Option ℕ)
      → Changes e s (let (b, f') = eof_io e f s.world x in result (bool b) (put e i f' s.world s))
  unfolding Changes
  eof-Change i f s h none = kept e s i f _ _ _ h refl (Grows-refl e s)
  eof-Change i f s h (some st) = kept e s i f _ _ _ h refl (Grows-refl e s)

  pub flush-Changes : (v : Value) (s : System e) → Changes e s (fileext_flush e v s)
  unfolding fileext_flush
  flush-Changes v s =
      with_file-Changes e _ v s
        (λ i f h. true_or-Changes file_flush_error i f s _ h (flush-Leaves e std f s.world))

  pub tell-Changes : (v : Value) (s : System e) → Changes e s (fileext_tell e v s)
  unfolding fileext_tell
  tell-Changes v s =
      with_file-Changes e _ v s
        (λ i f h. number_or-Changes file_tell_error i f s _ h (tell-Leaves e std f s.world))

  pub rewind-Changes : (v : Value) (s : System e) → Changes e s (fileext_rewind e v s)
  unfolding fileext_rewind rewind_file
  rewind-Changes v s = with_file-Changes e _ v s (λ i f h.
      not_negative-Changes file_rewind_error i f s _ h
        (seek-Leaves e std (pos 0) (pos 0) f s.world))

  pub feof-Changes : (v : Value) (s : System e) → Changes e s (fileext_feof e v s)
  unfolding fileext_feof eof
  feof-Changes v s = with_file-Changes e _ v s (λ i f h. eof-Change i f s h f.io)

  pub seek-Changes : (v off wh : Value) (s : System e) → Changes e s (fileext_seek e v off wh s)
  unfolding fileext_seek
  seek-Changes v off wh s = with_file-Changes e _ v s (λ i f h. with_int-Changes e _ off s (λ a.
      with_int-Changes e _ wh s (λ b.
        if-Changes e s _ _ _
          (fail-Changes e std whence_out_of_range i f s.world s s.strings h (Grows-refl e s))
          (not_negative-Changes file_seek_error i f s _ h (seek-Leaves e std a b f s.world)))))

  after_contents-Changes :
      (len : ℕ) (s : System e) (r : Transfer (List ℕ) e.World)
      → Behind e (Grows e s.world) r
      → Changes e s (after_contents e len s r)
  after_contents-Changes len s (complete bytes last w) g =
      if-Changes e s (length bytes == len) _ _ (string-Changes e s w bytes g)
        (undefined-Changes e s)
  after_contents-Changes len s (broken bytes last w) g = undefined-Changes e s
  after_contents-Changes len s endless g = unending-Changes e s

  module _ (malloc : ℕ → Bool) (fuel : ℕ) where
    contents_of-Changes :
        (st : ℕ) (s : System e) (r : ℤ × Fio × e.World)
        → Grows e s.world r.2
        → Changes e s (contents_of e malloc fuel st s r)
    contents_of-Changes st s (len, f, w) g =
        let (r, f', w') = seek e (pos 0) (pos 0) f w in
        let g' : Grows e s.world w' = λ t a. (seek-Leaves e std (pos 0) (pos 0) f w).1 t (g t a) in
        if-Changes e s (not (malloc (to_size len))) _ _ (thrown-Changes e s out_of_memory w' g') (
          if-Changes e s (negative e len) _ _ (undefined-Changes e s) (
            after_contents-Changes (to_size len) s _
              (read_loop-Grows e std s.world fuel st (to_size len) [] f'.last_error w' g')))

    contents_io-Changes :
        (s : System e) (f : Fio) (w : e.World) (x : Option ℕ)
        → Grows e s.world w
        → Changes e s (contents_io e malloc fuel s f w x)
    contents_io-Changes s f w none g = thrown-Changes e s unable_to_open_contents w g
    contents_io-Changes s f w (some st) g =
        let (r, f', w') = seek e (pos 0) (pos 2) f w in
        contents_of-Changes st s (tell e f' w') (λ t a.
          (tell-Leaves e std f' w').1 t ((seek-Leaves e std (pos 0) (pos 2) f w).1 t (g t a)))

    opened-Changes :
        (s : System e) (r : e.World × Option ℕ)
        → Opens e s.world r
        → (let (b, f, w) = opened e (new_fio e) r in
            Changes e s (contents_io e malloc fuel s f w f.io))
    opened-Changes s (w, none) g = contents_io-Changes s (opened e (new_fio e) (w, none)).1 w none g
    opened-Changes s (w, some st) (fresh, is_new, g) =
        contents_io-Changes s (opened e (new_fio e) (w, some st)).1 w (some st) g

    pub contents-Changes :
        (v : Value) (s : System e) → Changes e s (fileext_contents e malloc fuel v s)
    unfolding fileext_contents open_file close
    contents-Changes v s = with_string-Changes e _ v s (λ n.
        opened-Changes s (e.fopen n (b'r' ∷ []) s.world) (std.fopen_opens n (b'r' ∷ []) s.world))
