-- ===== src/Common/Words.antt =====
-- 32-bit words, as `u_int32_t` has them.
use Prim.Native.Nat.{ℕ, ◌+◌, ◌-◌, ◌*◌, ◌/◌, ◌%◌, ◌^◌, ◌<◌}
use mathlib.Core.Bool.{Bool}
use mathlib.Core.List.{List, [], ◌∷◌}
use caffeine_hx.Common.Tests.{if◌then◌else◌}
use mathlib.Core.Path.{◌≡◌}
use native.Mathlib.Omega.{arith}

-- A `u_int32_t` is a number below 2 ^ 32.
abbrev pub word_mod : ℕ
word_mod = 2 ^ 32

-- `a + b` and `a - b`; `-` on ℕ stops at 0, so the modulus is added first.
unfoldable pub add_word : ℕ → ℕ → ℕ
add_word a b = (a + b) % word_mod

unfoldable pub sub_word : ℕ → ℕ → ℕ
sub_word a b = (a + (word_mod - b % word_mod)) % word_mod

pub add_word-lt : (a b : ℕ) → add_word a b < word_mod
unfolding add_word
add_word-lt a b = omega arith

pub sub_word-add_word : (a b : ℕ) → a < word_mod → sub_word (add_word a b) b ≡ a
unfolding sub_word add_word
sub_word-add_word a b h = omega arith

-- The four bytes of a word in memory, on a machine that is little-endian or not, and the word that
-- four bytes hold.
abbrev pub native_bytes : Bool → ℕ → List ℕ
native_bytes machine_le n =
    let a = n % 256 in
    let b = (n / 2 ^ 8) % 256 in
    let c = (n / 2 ^ 16) % 256 in
    let d = (n / 2 ^ 24) % 256 in if machine_le then a ∷ b ∷ c ∷ d ∷ [] else d ∷ c ∷ b ∷ a ∷ []

abbrev pub native_word : Bool → ℕ → ℕ → ℕ → ℕ → ℕ
native_word machine_le a b c d =
    if machine_le
    then a + b * 2 ^ 8 + c * 2 ^ 16 + d * 2 ^ 24
    else a * 2 ^ 24 + b * 2 ^ 16 + c * 2 ^ 8 + d
