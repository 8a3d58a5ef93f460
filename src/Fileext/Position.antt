-- ===== src/Fileext/Position.antt =====
-- The primitives of dll_src/fileext/src/fileext.cpp that move and flush a stream, the contents of a file,
-- and the finalizers.
use caffeine_hx.Common.{
  ℕ, zero, Bool, true, List, [], ◌∷◌, ◌++◌, Option, none, some, length, set, not, ◌==◌, ◌||◌,
  if◌then◌else◌,
}
use caffeine_hx.Common.Int.{ℤ, pos, negsuc, to_size}
use caffeine_hx.Common.Slots.{slot}
use caffeine_hx.Fileext.{
  Stdio, Fio, Transfer, complete, broken, endless, read_loop, close, open_file, flush, tell, seek,
  rewind_file, eof,
}
use caffeine_hx.Fileext.Prims.{
  Value, int, bool, string, file, Message, file_flush_error, file_tell_error, whence_out_of_range,
  file_seek_error, file_rewind_error, unable_to_open_contents, out_of_memory, System, Answer,
  result, thrown, undefined, unending, Act, with_file, with_string, with_int, put, fail, new_fio,
  negative, above,
}

module _ (e : Stdio) where
  -- True, or an exception if the method returned a number other than 0, or a negative one.
  abbrev pub true_or : Message → ℕ → System e → ℤ × Fio × e.World → Answer (System e)
  true_or m i s (pos zero, f, w) = result (bool true) (put e i f w s)
  true_or m i s (r, f, w) = fail e m i f w s

  abbrev pub true_unless_negative : Message → ℕ → System e → ℤ × Fio × e.World → Answer (System e)
  true_unless_negative m i s (pos n, f, w) = result (bool true) (put e i f w s)
  true_unless_negative m i s (negsuc n, f, w) = fail e m i f w s

  abbrev pub number_or : Message → ℕ → System e → ℤ × Fio × e.World → Answer (System e)
  number_or m i s (pos n, f, w) = result (int (pos n)) (put e i f w s)
  number_or m i s (negsuc n, f, w) = fail e m i f w s

  unfoldable pub fileext_flush : Value → Act e
  unfolding flush
  fileext_flush v s = with_file e (λ i f s. true_or file_flush_error i s (flush e f s.world)) v s

  unfoldable pub fileext_tell : Value → Act e
  unfolding tell
  fileext_tell v s = with_file e (λ i f s. number_or file_tell_error i s (tell e f s.world)) v s

  -- `fileext_seek(nfp, offset, whence)`
  unfoldable pub fileext_seek : Value → Value → Value → Act e
  unfolding seek
  fileext_seek v offset whence s =
      with_file e
        (λ i f.
          with_int e
            (λ off.
              with_int e
                (λ wh s.
                  if negative e wh || above e wh 2
                  then fail e whence_out_of_range i f s.world s
                  else true_unless_negative file_seek_error i s (seek e off wh f s.world))
                whence)
            offset)
        v s

  unfoldable pub fileext_rewind : Value → Act e
  unfolding rewind_file
  fileext_rewind v s =
      with_file e (λ i f s. true_unless_negative file_rewind_error i s (rewind_file e f s.world)) v
        s

  unfoldable pub fileext_feof : Value → Act e
  unfolding eof
  fileext_feof v s =
      with_file e (λ i f s. let (b, f') = eof e f s.world in result (bool b) (put e i f' s.world s))
        v s

  -- The string that `fileext_contents` makes of what it read, where `len` bytes were asked for; the rest
  -- of the block was never written. The stream is not closed.
  abbrev pub after_contents : ℕ → System e → Transfer (List ℕ) e.World → Answer (System e)
  after_contents len s endless = unending
  after_contents len s (complete bytes last w) =
      if length bytes == len
      then result (string (length s.strings))
          (record s { world = w; strings = s.strings ++ bytes ∷ [] })
      else undefined
  after_contents len s (broken bytes last w) = undefined

  -- A malloc of the length; a negative one is a size near 2 ^ 64, and no length of a string.
  abbrev pub contents_of : (ℕ → Bool) → ℕ → ℕ → System e → ℤ × Fio × e.World → Answer (System e)
  contents_of malloc fuel st s (len, f, w) =
      let (r, f', w') = seek e (pos 0) (pos 0) f w in
      if not (malloc (to_size len))
      then thrown out_of_memory (record s { world = w' })
      else if negative e len
      then undefined
      else after_contents (to_size len) s (read_loop e fuel st (to_size len) [] f'.last_error w')

  abbrev pub contents_io : (ℕ → Bool) → ℕ → System e → Fio → e.World → Option ℕ → Answer (System e)
  contents_io malloc fuel s f w none = thrown unable_to_open_contents (record s { world = w })
  contents_io malloc fuel s f w (some st) =
      let (r, f', w') = seek e (pos 0) (pos 2) f w in contents_of malloc fuel st s (tell e f' w')

  -- `fileext_contents(fname)`
  unfoldable pub fileext_contents : (ℕ → Bool) → ℕ → Value → Act e
  unfolding open_file seek tell read_loop
  fileext_contents malloc fuel fname s =
      with_string e
        (λ name s.
          let (b, f, w) = open_file e name (b'r' ∷ []) (new_fio e) s.world in
          contents_io malloc fuel s f w f.io)
        fname s

  -- `fileext_free_file`, and `fileext_free_stdio`, which leaves the stream open: the finalizers.
  abbrev pub freed_file : ℕ → System e → Option Fio → System e
  freed_file i s none = s
  freed_file i s (some f) =
      let (f', w) = close e f s.world in record s { world = w; files = set s.files i none }

  unfoldable pub fileext_free_file : ℕ → System e → System e
  unfolding close
  fileext_free_file i s = freed_file i s (slot s.files i)

  unfoldable pub fileext_free_stdio : ℕ → System e → System e
  fileext_free_stdio i s = record s { files = set s.files i none }

  -- `fileext_stdin`, `fileext_stdout` and `fileext_stderr`, for the stream.
  unfoldable pub fileext_stdio : ℕ → Act e
  fileext_stdio st s =
      result (file (some (length s.files)))
        (record s { files = s.files ++ some (record { io = some st; last_error = pos 0 }) ∷ [] })
