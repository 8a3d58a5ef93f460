-- ===== src/Http/Char.antt =====
-- Comparisons of a `char` read from the buffer with a constant, as http11_parser.c writes them.
-- A byte is a number below 256; `char` is signed (x86), so a byte from 128 on is negative.
use caffeine_hx.Common.{ℕ, Bool, ◌&&◌, ◌||◌, ltb, leb}

-- `k <= *p`, for a constant from 0 to 127
abbrev pub at_least : ℕ → ℕ → Bool
at_least k c = leb k c && ltb c 128

-- `*p < k`
abbrev pub below : ℕ → ℕ → Bool
below k c = ltb c k || leb 128 c

-- `*p > k`
abbrev pub above : ℕ → ℕ → Bool
above k c = ltb k c && ltb c 128

-- `lo <= *p && *p <= hi`
abbrev pub within : ℕ → ℕ → ℕ → Bool
within lo hi c = leb lo c && leb c hi
