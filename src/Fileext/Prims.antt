-- ===== src/Fileext/Prims.antt =====
-- The primitives of dll_src/fileext/src/fileext.cpp.
use caffeine_hx.Common.{
  ℕ, ◌+◌, Bool, true, false, List, [], ◌∷◌, ◌++◌, Option, none, some, length, get_elem?, set, take,
  drop, write_at, ltb, ◌||◌, if◌then◌else◌,
}
use caffeine_hx.Common.Int.{ℤ, pos, negsuc}
use caffeine_hx.Common.Slots.{slot}
use caffeine_hx.Fileext.{
  Stdio, Fio, to_int, Transfer, complete, broken, endless, read_loop, write_loop, close, open_file,
  open_tmpfile,
}

-- A file is a pointer to a `fio`, or NULL; a string stands in the memory of scripts, which primitives
-- write to.
pub data Value : Type 0 where
  null : Value
  int : ℤ → Value
  bool : Bool → Value
  string : ℕ → Value
  file : Option ℕ → Value
  other_value : Value

pub data Message : Type 0 where
  null_file_pointer unable_to_open unable_to_create file_read_error file_write_error
        byte_out_of_range :
      Message
  file_flush_error file_tell_error whence_out_of_range file_seek_error file_rewind_error : Message
  unable_to_open_contents out_of_memory : Message

-- The files by number, `none` where deleted, and the strings.
pub record System (e : Stdio) : Type 0 where
  pub world : e.World
  pub files : List (Option Fio)
  pub strings : List (List ℕ)

-- A primitive gives a value, an exception, or NULL for an argument of the wrong type. Or fread or fwrite
-- is told more bytes than the string has; a deleted file, a missing string or bytes that were never
-- written are used; or a loop goes on when its fuel is spent.
pub data Answer (S : Type 0) : Type 0 where
  result : Value → S → Answer S
  thrown : Message → S → Answer S
  neko_error : S → Answer S
  overrun : Answer S
  undefined : Answer S
  unending : Answer S

module _ (e : Stdio) where
  abbrev pub Act : Type 0
  Act = System e → Answer (System e)

  -- `MAKE_FP(v)`
  abbrev pub on_file : (ℕ → Fio → Act) → ℕ → System e → Option Fio → Answer (System e)
  on_file use_file i s none = undefined
  on_file use_file i s (some f) = use_file i f s

  abbrev pub with_file : (ℕ → Fio → Act) → Value → Act
  with_file use_file (file none) s = thrown null_file_pointer s
  with_file use_file (file (some i)) s = on_file use_file i s (slot s.files i)
  with_file use_file _ s = neko_error s

  -- `BYTES_TO_NEKO(b)`
  abbrev pub on_string : (ℕ → List ℕ → Act) → ℕ → System e → Option (List ℕ) → Answer (System e)
  on_string use_string j s none = undefined
  on_string use_string j s (some b) = use_string j b s

  abbrev pub with_bytes : (ℕ → List ℕ → Act) → Value → Act
  with_bytes use_string (string j) s = on_string use_string j s (get_elem? s.strings j)
  with_bytes use_string _ s = result null s

  -- `val_check(s, string)`
  abbrev pub with_string : (List ℕ → Act) → Value → Act
  with_string use_string (string j) s = on_string (λ i b. use_string b) j s (get_elem? s.strings j)
  with_string use_string _ s = neko_error s

  abbrev pub with_int : (ℤ → Act) → Value → Act
  with_int use_int (int n) s = use_int n s
  with_int use_int _ s = neko_error s

  -- The state with a file and the world as a method leaves them.
  abbrev pub put : ℕ → Fio → e.World → System e → System e
  put i f w s = record s { world = w; files = set s.files i (some f) }

  -- `fileext_error(msg, f)`: the error is reset, and the message alone is thrown.
  abbrev pub fail : Message → ℕ → Fio → e.World → Act
  fail m i f w s = thrown m (put i (record f { last_error = pos 0 }) w s)

  -- The new value of `fileext_open` and `fileext_tmpfile_open`, whose `fio` is deleted after a failure.
  abbrev pub made : Message → System e → Bool × Fio × e.World → Answer (System e)
  made m s (true, f, w) =
      result (file (some (length s.files))) (record s { world = w; files = s.files ++ some f ∷ [] })
  made m s (false, f, w) = thrown m (record s { world = w })

  abbrev pub new_fio : Fio
  new_fio = record { io = none; last_error = pos 0 }

  unfoldable pub fileext_open : Value → Value → Act
  unfolding open_file
  fileext_open name mode s =
      with_string
        (λ n. with_string (λ m s. made unable_to_open s (open_file e n m new_fio s.world)) mode)
        name s

  unfoldable pub fileext_tmpfile_open : Act
  unfolding open_tmpfile
  fileext_tmpfile_open s = made unable_to_create s (open_tmpfile e new_fio s.world)

  unfoldable pub fileext_close : Value → Act
  unfolding close
  fileext_close v s =
      with_file (λ i f s. let (f', w) = close e f s.world in result (bool true) (put i f' w s)) v s

  -- `pos < 0 || len < 0 || pos > buf_len || pos + len > buf_len`, with the sum of two `int`.
  abbrev pub above : ℤ → ℕ → Bool
  above (pos k) n = ltb n k
  above (negsuc k) n = false

  unfoldable pub out_of_range : ℤ → ℤ → ℕ → Bool
  out_of_range (pos p) (pos l) n = ltb n p || above (to_int (p + l)) n
  out_of_range _ _ n = true

  abbrev pub negative : ℤ → Bool
  negative (pos n) = false
  negative (negsuc n) = true

  abbrev pub nat_of : ℤ → ℕ
  nat_of (pos n) = n
  nat_of (negsuc n) = 0

  -- The string behind a read, with the bytes that fread put there.
  abbrev pub stored : ℕ → ℕ → List ℕ → List ℕ → System e → System e
  stored j p buf bytes s = record s { strings = set s.strings j (write_at p bytes buf) }

  abbrev pub after_read :
      ℕ → Fio → ℕ → List ℕ → ℕ → System e → Transfer (List ℕ) e.World → Answer (System e)
  after_read i f j buf p s endless = unending
  after_read i f j buf p s (complete bytes last w) =
      result (int (pos (length bytes)))
        (put i (record f { last_error = last }) w (stored j p buf bytes s))
  after_read i f j buf p s (broken bytes last w) =
      fail file_read_error i f w (stored j p buf bytes s)

  abbrev pub read_io : ℕ → ℕ → Fio → ℕ → List ℕ → ℕ → ℕ → System e → Option ℕ → Answer (System e)
  read_io fuel i f j buf p l s none = fail file_read_error i f s.world s
  read_io fuel i f j buf p l s (some st) =
      if ltb (length buf) (p + l)
      then overrun
      else after_read i f j buf p s (read_loop e fuel st l [] f.last_error s.world)

  -- `fileext_read(nfp, buf, npos, ncount)`
  unfoldable pub fileext_read : ℕ → Value → Value → Value → Value → Act
  unfolding read_loop out_of_range
  fileext_read fuel v b npos ncount s =
      with_file
        (λ i f.
          with_bytes
            (λ j buf.
              with_int
                (λ p.
                  with_int
                    (λ l s.
                      if out_of_range p l (length buf)
                      then result null s
                      else read_io fuel i f j buf (nat_of p) (nat_of l) s f.io)
                    ncount)
                npos)
            b)
        v s

  -- Behind a read of one byte into a variable that is not initialized.
  abbrev pub after_char : ℕ → Fio → System e → Transfer (List ℕ) e.World → Answer (System e)
  after_char i f s endless = unending
  after_char i f s (complete (b ∷ bytes) last w) =
      result (int (pos b)) (put i (record f { last_error = last }) w s)
  after_char i f s (complete [] last w) = undefined
  after_char i f s (broken bytes last w) = fail file_read_error i f w s

  abbrev pub read_char_io : ℕ → ℕ → Fio → System e → Option ℕ → Answer (System e)
  read_char_io fuel i f s none = fail file_read_error i f s.world s
  read_char_io fuel i f s (some st) =
      after_char i f s (read_loop e fuel st 1 [] f.last_error s.world)

  unfoldable pub fileext_read_char : ℕ → Value → Act
  unfolding read_loop
  fileext_read_char fuel v s = with_file (λ i f s. read_char_io fuel i f s f.io) v s

  abbrev pub after_write : ℕ → Fio → System e → Transfer ℕ e.World → Answer (System e)
  after_write i f s endless = unending
  after_write i f s (complete n last w) =
      result (int (pos n)) (put i (record f { last_error = last }) w s)
  after_write i f s (broken n last w) = fail file_write_error i f w s

  abbrev pub write_io : ℕ → ℕ → Fio → List ℕ → ℕ → ℕ → System e → Option ℕ → Answer (System e)
  write_io fuel i f buf p l s none = fail file_write_error i f s.world s
  write_io fuel i f buf p l s (some st) =
      if ltb (length buf) (p + l)
      then overrun
      else after_write i f s (write_loop e fuel st (take l (drop p buf)) 0 f.last_error s.world)

  -- `fileext_write(nfp, buf, npos, ncount)`
  unfoldable pub fileext_write : ℕ → Value → Value → Value → Value → Act
  unfolding write_loop out_of_range
  fileext_write fuel v b npos ncount s =
      with_file
        (λ i f.
          with_bytes
            (λ j buf.
              with_int
                (λ p.
                  with_int
                    (λ l s.
                      if out_of_range p l (length buf)
                      then result null s
                      else write_io fuel i f buf (nat_of p) (nat_of l) s f.io)
                    ncount)
                npos)
            b)
        v s

  unfoldable pub fileext_write_char : ℕ → Value → Value → Act
  unfolding write_loop
  fileext_write_char fuel v nc s =
      with_file
        (λ i f.
          with_int
            (λ c s.
              if above c 255 || negative c
              then thrown byte_out_of_range s
              else write_io fuel i f (nat_of c ∷ []) 0 1 s f.io)
            nc)
        v s
