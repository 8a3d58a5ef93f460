-- ===== src/Xdiff/Diff.antt =====
-- xdiff_string and xdiff_make_buf of dll_src/xdiff/src/xdiff.c.
use caffeine_hx.Common.{
  ℕ, ◌+◌, ◌-◌, Bool, true, false, List, [], Option, none, some, length, take, leb, not,
  if◌then◌else◌,
}
use caffeine_hx.Common.Int.{ℤ, pos}
use caffeine_hx.Xdiff.{
  Allocator, Outbuf, Appended, appended, refused, overrun, init_outbuf, free_outbuf, append_all,
}

-- libxdiff: whether xdl_init_mmfile and xdl_mmfile_writeallocate succeed, for the first or second file
-- and its size; the calls that xdl_diff makes of its callback, with the buffers of each, for `minimal`
-- and the context, and whether it fails though none of them does. It stops and fails when the callback
-- returns -1.
pub record Libxdiff : Type 0 where
  pub init_mmfile : ℕ → ℕ → Bool
  pub write_allocate : ℕ → ℕ → Bool
  pub calls : Bool → ℕ → List ℕ → List ℕ → List (List (List ℕ))
  pub fails : Bool → ℕ → List ℕ → List ℕ → Bool

pub data Arg : Type 0 where
  int : ℤ → Arg
  string : List ℕ → Arg
  bool : Bool → Arg
  other_value : Arg

pub data Message : Type 0 where
  buffer_init_error copy_error_original copy_error_modified copy_error diff_error : Message

-- A primitive gives a value, an exception, or NULL; or memory is misused.
pub data Answer : Type 0 where
  result : List ℕ → Answer
  thrown : Message → Answer
  neko_error : Answer
  undefined : Answer

module _ (al : Allocator) (x : Libxdiff) where
  -- `xdl_free_mmfile(f)`, on the number of files that are initialised and not freed.
  abbrev pub free_mmfile : ℕ → ℕ
  free_mmfile files = files - 1

  -- `copy_to_mmfile(src, dest, size)`: whether it succeeds, so that the file has the bytes, and the number of
  -- files that it leaves initialised.
  unfoldable pub copy_to_mmfile : ℕ → List ℕ → Bool × ℕ
  copy_to_mmfile which src =
      if not (x.init_mmfile which (length src))
      then (false, 0)
      else if not (x.write_allocate which (length src))
      then (false, free_mmfile 1)
      else (true, 1)

  -- The string of the buffer; each answer has the number of blocks and files that are not freed.
  abbrev pub copied : ℕ → Option (List ℕ) → Answer
  copied n none = undefined
  copied n (some b) = if leb n (length b) then result (take n b) else undefined

  abbrev pub held : Option (List ℕ) → ℕ
  held none = 0
  held (some b) = 1

  abbrev pub string_of : Outbuf → Answer × ℕ
  string_of buf =
      (if buf.has_data then copied buf.len buf.p else result [], held (free_outbuf al buf).p)

  -- What follows the calls of append_data in xdl_diff; a block that realloc did not resize is left.
  abbrev pub finished : Bool → Appended → Answer × ℕ
  finished fails overrun = (undefined, 1)
  finished fails (refused buf) = (thrown diff_error, 1 + held (free_outbuf al buf).p)
  finished fails (appended buf) =
      if fails then (thrown diff_error, held (free_outbuf al buf).p) else string_of buf

  -- The files that are left beside the blocks.
  abbrev pub with_files : ℕ → Answer × ℕ → Answer × ℕ
  with_files files r = (r.0, r.1 + files)

  abbrev pub diff_in : Bool → ℕ → List ℕ → List ℕ → Option Outbuf → Answer × ℕ
  diff_in minimal context s1 s2 none = (thrown buffer_init_error, 0)
  diff_in minimal context s1 s2 (some buf) =
      let first = copy_to_mmfile 0 s1 in
      let second = copy_to_mmfile 1 s2 in
      if not first.0
      then (thrown copy_error_original, held buf.p + first.1)
      else if not second.0
      then (thrown copy_error_modified, held buf.p + (free_mmfile first.1 + second.1))
      else with_files (free_mmfile first.1 + free_mmfile second.1) (
          finished (x.fails minimal context s1 s2)
            (append_all al buf (x.calls minimal context s1 s2)))

  -- `xdiff_string(orig, modified, context, minimal)`
  unfoldable pub xdiff_string : Arg → Arg → Arg → Arg → Answer × ℕ
  unfolding init_outbuf append_all free_outbuf
  xdiff_string (string s1) (string s2) (int (pos context)) (bool minimal) =
      diff_in minimal context s1 s2 (init_outbuf al 1)
  xdiff_string _ _ _ _ = (neko_error, 0)

  -- `xdiff_make_buf(s)`: the bytes of the file behind the new value, which has no finalizer.
  unfoldable pub xdiff_make_buf : Arg → Bool → Answer × ℕ
  unfolding copy_to_mmfile
  xdiff_make_buf (string s) true =
      let copied = copy_to_mmfile 0 s in
      if copied.0 then (result s, 1 + copied.1) else (thrown copy_error, 1 + copied.1)
  xdiff_make_buf _ _ = (neko_error, 0)
