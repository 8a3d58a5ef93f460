-- ===== src/Fileext.antt =====
-- `struct fio` of dll_src/fileext/src/fileext.cpp: a stream of stdio.h with the last error.
use caffeine_hx.Common.{
  ℕ, zero, suc, ◌+◌, ◌-◌, ◌%◌, ◌&&◌, drop, ◌^◌, Bool, true, false, List, [], ◌∷◌, ◌++◌, Option,
  none, some, length, ltb, ◌==◌, if◌then◌else◌,
}
use caffeine_hx.Common.Int.{ℤ, pos, negsuc}
pub mod Loop
pub mod Written
pub mod Range
pub mod Prims
pub mod Position
pub mod Streams
pub mod Behind
pub mod Changes
pub mod Moves
pub mod Each
pub mod Safe
mod Tests

-- stdio.h on a state of the system: streams by number, the flags of ferror and feof, and errno. A stream
-- that fopen or tmpfile gives is `some`; fread gives the bytes it read, fwrite how many it wrote; fflush
-- and fseek say whether they succeed; ftell gives `none` for -1. `is_open` is not called by the code.
pub record Stdio : Type 1 where
  pub World : Type 0
  pub is_open : ℕ → World → Bool
  pub ferror : ℕ → World → Bool
  pub feof : ℕ → World → Bool
  pub errno : World → ℕ
  pub fopen : List ℕ → List ℕ → World → World × Option ℕ
  pub tmpfile : World → World × Option ℕ
  pub fclose : ℕ → World → World
  pub fread : ℕ → ℕ → World → World × List ℕ
  pub fwrite : ℕ → List ℕ → World → World × ℕ
  pub fflush : ℕ → World → World × Bool
  pub fseek : ℕ → ℤ → ℤ → World → World × Bool
  pub ftell : ℕ → World → World × Option ℕ

abbrev pub eintr : ℕ
eintr = 4

-- `NULL_PTR_ERROR`
abbrev pub null_ptr_error : ℤ
null_ptr_error = negsuc 1110

-- `struct fio`, without the name and the mode, which are only stored.
pub record Fio : Type 0 where
  pub io : Option ℕ
  pub last_error : ℤ

-- `(int)` of a number of at most 32 bits
abbrev pub to_int : ℕ → ℤ
to_int n = if ltb n (2 ^ 31) then pos n else negsuc (2 ^ 32 - n - 1)

-- What a loop of `read` or `write` comes to: the bytes that were read or the number of those written,
-- with `lastError`; the return of -1; or it still goes on when its fuel is spent.
pub data Transfer (A W : Type 0) : Type 0 where
  complete : A → ℤ → W → Transfer A W
  broken : A → ℤ → W → Transfer A W
  endless : Transfer A W

module _ (e : Stdio) where
  -- Behind an fread with `suc len` bytes left: what is read is counted, and the loop goes on; or it ends,
  -- at an error that is not EINTR with -1; `again` is the rest of the loop.
  abbrev pub after_fread :
      (ℕ → List ℕ → ℤ → e.World → Transfer (List ℕ) e.World)
      → ℕ
      → List ℕ
      → ℤ
      → e.World
      → List ℕ
      → Bool
      → Bool
      → Transfer (List ℕ) e.World
  after_fread again len bytes last w (b ∷ more) failed interrupted =
      again (len - length more) (bytes ++ b ∷ more) last w
  after_fread again len bytes last w [] false interrupted = complete bytes last w
  after_fread again len bytes last w [] true true = again (suc len) bytes (pos (e.errno w)) w
  after_fread again len bytes last w [] true false = broken bytes (pos (e.errno w)) w

  -- The loop of `read`, with `len` bytes left and the bytes that are read; the fuel counts the calls of
  -- fread.
  unfoldable pub read_loop : ℕ → ℕ → ℕ → List ℕ → ℤ → e.World → Transfer (List ℕ) e.World
  read_loop fuel s zero bytes last w = complete bytes last w
  read_loop zero s (suc len) bytes last w = endless
  read_loop (suc fuel) s (suc len) bytes last w =
      let (w', got) = e.fread s (suc len) w in
      after_fread (read_loop fuel s) len bytes last w' got (e.ferror s w') (e.errno w' == eintr)

  -- Behind an fwrite of the bytes left; here each error but EINTR is -1, and so is an end without one.
  abbrev pub after_fwrite :
      (List ℕ → ℕ → ℤ → e.World → Transfer ℕ e.World)
      → List ℕ
      → ℕ
      → ℤ
      → e.World
      → ℕ
      → Bool
      → Transfer ℕ e.World
  after_fwrite again left n last w (suc k) interrupted =
      again (drop (suc k) left) (n + suc k) last w
  after_fwrite again left n last w zero true = again left n (pos (e.errno w)) w
  after_fwrite again left n last w zero false = broken n (pos (e.errno w)) w

  -- The loop of `write`, with the bytes left and the number of those written.
  unfoldable pub write_loop : ℕ → ℕ → List ℕ → ℕ → ℤ → e.World → Transfer ℕ e.World
  write_loop fuel s [] n last w = complete n last w
  write_loop zero s (b ∷ left) n last w = endless
  write_loop (suc fuel) s (b ∷ left) n last w =
      let (w', got) = e.fwrite s (b ∷ left) w in
      after_fwrite (write_loop fuel s) (b ∷ left) n last w' got
        (e.ferror s w' && e.errno w' == eintr)

  abbrev pub close_io : Fio → e.World → Option ℕ → Fio × e.World
  close_io f w none = (record f { io = none }, w)
  close_io f w (some s) = (record f { io = none }, e.fclose s w)

  -- `close()`
  unfoldable pub close : Fio → e.World → Fio × e.World
  close f w = close_io f w f.io

  abbrev pub opened : Fio → e.World × Option ℕ → Bool × Fio × e.World
  opened f (w, some s) = (true, record f { io = some s }, w)
  opened f (w, none) = (false, record f { io = none; last_error = pos (e.errno w) }, w)

  -- `open(name, mode)` and `open_tmpfile()`
  unfoldable pub open_file : List ℕ → List ℕ → Fio → e.World → Bool × Fio × e.World
  unfolding close
  open_file name mode f w = let (f', w') = close f w in opened f' (e.fopen name mode w')

  unfoldable pub open_tmpfile : Fio → e.World → Bool × Fio × e.World
  unfolding close
  open_tmpfile f w = let (f', w') = close f w in opened f' (e.tmpfile w')

  -- `CHECK_NULL_IO()` and the rest of a method that returns an `int`.
  abbrev pub with_io : Fio → e.World → (ℕ → ℤ × Fio × e.World) → Option ℕ → ℤ × Fio × e.World
  with_io f w on_stream none = (null_ptr_error, record f { last_error = null_ptr_error }, w)
  with_io f w on_stream (some s) = on_stream s

  -- 0 or -1, with `lastError` after a failure
  abbrev pub status : Fio → e.World × Bool → ℤ × Fio × e.World
  status f (w, true) = (pos 0, f, w)
  status f (w, false) = (negsuc 0, record f { last_error = pos (e.errno w) }, w)

  unfoldable pub flush : Fio → e.World → ℤ × Fio × e.World
  flush f w = with_io f w (λ s. status f (e.fflush s w)) f.io

  abbrev pub int_offset : Fio → e.World → ℤ → ℤ × Fio × e.World
  int_offset f w (pos k) = (pos k, f, w)
  int_offset f w (negsuc k) = (negsuc k, record f { last_error = pos (e.errno w) }, w)

  -- The `long` of ftell is cut to an `int`.
  abbrev pub offset : Fio → e.World × Option ℕ → ℤ × Fio × e.World
  offset f (w, none) = (negsuc 0, record f { last_error = pos (e.errno w) }, w)
  offset f (w, some n) = int_offset f w (to_int (n % 2 ^ 32))

  unfoldable pub tell : Fio → e.World → ℤ × Fio × e.World
  tell f w = with_io f w (λ s. offset f (e.ftell s w)) f.io

  unfoldable pub seek : ℤ → ℤ → Fio → e.World → ℤ × Fio × e.World
  seek off whence f w = with_io f w (λ s. status f (e.fseek s off whence w)) f.io

  -- `rewind()`
  unfoldable pub rewind_file : Fio → e.World → ℤ × Fio × e.World
  unfolding seek
  rewind_file f w = seek (pos 0) (pos 0) f w

  -- `eof()`: the NULL_PTR_ERROR of a closed file is true as a `bool`.
  abbrev pub eof_io : Fio → e.World → Option ℕ → Bool × Fio
  eof_io f w none = (true, record f { last_error = null_ptr_error })
  eof_io f w (some s) = (e.feof s w, f)

  unfoldable pub eof : Fio → e.World → Bool × Fio
  eof f w = eof_io f w f.io
