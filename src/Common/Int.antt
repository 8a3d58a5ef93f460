-- ===== src/Common/Int.antt =====
-- Signed integers, for the C `int` values that the program reads from strings and from Neko.
use Prim.Native.Nat.{ℕ, zero, suc, ◌-◌, ◌^◌}

-- `negsuc n` is -(n + 1).
pub data ℤ : Type 0 where
  pos : ℕ → ℤ
  negsuc : ℕ → ℤ

-- - n
unfoldable pub neg_of : ℕ → ℤ
neg_of zero = pos 0
neg_of (suc k) = negsuc k

-- `(size_t)i` for an `int`
abbrev pub to_size : ℤ → ℕ
to_size (pos n) = n
to_size (negsuc n) = 2 ^ 64 - suc n

-- `(u_int32_t)i` for an `int`
abbrev pub to_uint32 : ℤ → ℕ
to_uint32 (pos n) = n
to_uint32 (negsuc n) = 2 ^ 32 - suc n
