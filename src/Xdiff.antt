-- ===== src/Xdiff.antt =====
-- dll_src/xdiff/src/xdiff.c: the buffer that collects a diff. `len` is an unsigned long, the argument of
-- xdl_realloc an unsigned int: it is cut to 32 bits.
use caffeine_hx.Common.{
  ℕ, zero, suc, ◌+◌, ◌%◌, ◌^◌, ◌≤◌, ◌≡◌, Bool, true, false, List, [], ◌∷◌, ◌++◌, Option, none, some,
  length, take, write_at, replicate, leb, if◌then◌else◌,
}
use caffeine_hx.Common.Int.{ℤ, pos, negsuc}
pub mod Collect
pub mod Diff
pub mod Answers
mod Tests

-- malloc, by the size, with the bytes that the block has; and realloc of a block to a size.
pub record Allocator : Type 0 where
  pub malloc : ℕ → Option (List ℕ)
  pub realloc : List ℕ → ℕ → Option (List ℕ)

-- What realloc promises: a block of the size, with the bytes of the old one.
pub record IsAllocator (al : Allocator) : Type 0 where
  pub given : (n : ℕ) (b : List ℕ) → al.malloc n ≡ some b → length b ≡ n
  pub resized : (b b' : List ℕ) (n : ℕ) → al.realloc b n ≡ some b' → length b' ≡ n
  pub kept :
      (b b' : List ℕ) (n m : ℕ)
      → al.realloc b n ≡ some b'
      → m ≤ n
      → m ≤ length b
      → take m b' ≡ take m b

-- `outbuf_t`: the block, or NULL.
pub record Outbuf : Type 0 where
  pub p : Option (List ℕ)
  pub has_data : Bool
  pub len : ℕ

-- What append_data returns, with the buffer: 0, or -1; or it writes behind the end of its block.
pub data Appended : Type 0 where
  appended : Outbuf → Appended
  refused : Outbuf → Appended
  overrun : Appended

-- The size as xdl_realloc has it, an unsigned int.
abbrev pub unsigned_int : ℕ → ℕ
unsigned_int n = n % 2 ^ 32

module _ (al : Allocator) where
  abbrev pub zeroed : ℕ → Option (List ℕ) → Option Outbuf
  zeroed bytes none = none
  zeroed bytes (some b) =
      some (record { p = some (replicate bytes 0); has_data = false; len = bytes })

  -- `init_outbuf(buf, bytes)`: the buffer, where there is memory for its block.
  unfoldable pub init_outbuf : ℕ → Option Outbuf
  init_outbuf bytes = zeroed bytes (al.malloc bytes)

  -- `free_outbuf(buf)`: a buffer without a block is left as it is.
  abbrev pub freed : Outbuf → Option (List ℕ) → Outbuf
  freed buf none = buf
  freed buf (some b) = record { p = none; has_data = false; len = 0 }

  unfoldable pub free_outbuf : Outbuf → Outbuf
  free_outbuf buf = freed buf buf.p

  -- The buffer behind a realloc that fails; the old block is not freed.
  abbrev pub lost : Outbuf
  lost = record { p = none; has_data = false; len = 0 }

  -- The loop of append_data, from `len` bytes in the block on, and its end; `more` says that the count is
  -- not 0, or that there was data.
  unfoldable pub append_chunks : Bool → ℕ → List ℕ → List (List ℕ) → Appended
  append_chunks more len b [] = appended (record { p = some b; has_data = more; len = len })
  append_chunks more len b (chunk ∷ chunks) =
      elim (al.realloc b (unsigned_int (len + length chunk + 1))) [
        | none ↦ refused lost
        | some b' ↦
            let rest = append_chunks true (len + length chunk) (write_at len chunk b') chunks in
            if leb (len + length chunk) (length b') then rest else overrun
      ]

  -- `append_data(p, data, count)`
  abbrev pub append_to : Outbuf → List (List ℕ) → Option (List ℕ) → Appended
  append_to buf chunks none = refused buf
  append_to buf chunks (some b) =
      append_chunks buf.has_data (if buf.has_data then buf.len else 0) b chunks

  unfoldable pub append_data : Outbuf → List (List ℕ) → Appended
  unfolding append_chunks
  append_data buf chunks = append_to buf chunks buf.p

  abbrev pub on_appended : (Outbuf → Appended) → Appended → Appended
  on_appended go_on (appended buf) = go_on buf
  on_appended go_on (refused buf) = refused buf
  on_appended go_on overrun = overrun

  -- Calls of append_data in a row, until one returns -1.
  unfoldable pub append_all : Outbuf → List (List (List ℕ)) → Appended
  append_all buf [] = appended buf
  append_all buf (chunks ∷ calls) =
      on_appended (λ buf'. append_all buf' calls) (append_data buf chunks)
