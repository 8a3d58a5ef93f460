-- ===== src/Hash/Sha1/Transform.antt =====
-- SHA1Transform of dll_src/hash/src/sha1.c: the macros and the eighty rounds on one block.
use Prim.Native.Nat.{bit_and, bit_or, bit_xor}
use caffeine_hx.Common.{
  ℕ, zero, suc, ◌+◌, ◌-◌, ◌*◌, ◌/◌, ◌%◌, ◌^◌, Bool, List, [], ◌∷◌, get_or, set, take, ltb,
  if◌then◌else◌,
}
pub use caffeine_hx.Common.Words.{word_mod}

-- `rol(value, bits)`
unfoldable pub rol : ℕ → ℕ → ℕ
rol value bits = bit_or ((value * 2 ^ bits) % word_mod) (value / 2 ^ (32 - bits))

-- The registers, in the order in which a round names them: `v, w, x, y, z`.
pub record Registers : Type 0 where
  pub v : ℕ
  pub w : ℕ
  pub x : ℕ
  pub y : ℕ
  pub z : ℕ

-- The bytes of a block as sixteen words, in the byte order of the machine (`CHAR64LONG16`).
unfoldable pub load : Bool → List ℕ → List ℕ
load le (a ∷ b ∷ c ∷ d ∷ rest) =
    (if le
      then a + b * 2 ^ 8 + c * 2 ^ 16 + d * 2 ^ 24
      else a * 2 ^ 24 + b * 2 ^ 16 + c * 2 ^ 8 + d)
    ∷ load le rest
load le _ = []

-- `blk0(i)`, the word as it stands, and `blk0le(i)`, the word with its bytes swapped.
unfoldable pub swap_bytes : ℕ → ℕ
unfolding rol
swap_bytes l = bit_or (bit_and (rol l 24) 0xFF00FF00) (bit_and (rol l 8) 0x00FF00FF)

abbrev pub word_at : List ℕ → ℕ → ℕ
word_at block i = get_or block i 0

-- `blk(i)`: the word that replaces the one sixteen places back.
unfoldable pub blk : List ℕ → ℕ → ℕ
unfolding rol
blk block i =
    rol
      (bit_xor
        (bit_xor (bit_xor (word_at block ((i + 13) % 16)) (word_at block ((i + 8) % 16)))
          (word_at block ((i + 2) % 16)))
        (word_at block (i % 16)))
      1

-- The word of round `i`; it is stored where the macros assign it.
unfoldable pub fetch : Bool → ℕ → List ℕ → ℕ
unfolding swap_bytes blk
fetch le i block =
    if ltb i 16 then (if le then swap_bytes (word_at block i) else word_at block i) else blk block i

-- The functions and constants of R0 and R1, R2, R3 and R4.
unfoldable pub mix : ℕ → ℕ → ℕ → ℕ → ℕ
mix i w x y =
    if ltb i 20
    then bit_xor (bit_and w (bit_xor x y)) y
    else if ltb i 40
    then bit_xor (bit_xor w x) y
    else if ltb i 60
    then bit_or (bit_and (bit_or w x) y) (bit_and w x)
    else bit_xor (bit_xor w x) y

unfoldable pub constant : ℕ → ℕ
constant i =
    if ltb i 20
    then 0x5A827999
    else if ltb i 40
    then 0x6ED9EBA1
    else if ltb i 60
    then 0x8F1BBCDC
    else 0xCA62C1D6

-- One round: `z += mix(w, x, y) + blk + K + rol(v, 5); w = rol(w, 30)`. The next round is written with
-- the registers moved on by one place.
unfoldable pub round : ℕ → ℕ → Registers → Registers
unfolding mix constant rol
round i word r = record {
  v = (r.z + mix i r.w r.x r.y + word + constant i + rol r.v 5) % word_mod;
  w = r.v;
  x = rol r.w 30;
  y = r.x;
  z = r.y;
}

-- The rounds from `i` on, with the block that they overwrite.
unfoldable pub rounds : Bool → ℕ → ℕ → List ℕ → Registers → Registers
unfolding fetch round
rounds le zero i block r = r
rounds le (suc n) i block r =
    let word = fetch le i block in rounds le n (i + 1) (set block (i % 16) word) (round i word r)

-- `state[k] += ..` for the five words.
unfoldable pub add_registers : Registers → Registers → Registers
add_registers s r = record {
  v = (s.v + r.v) % word_mod;
  w = (s.w + r.w) % word_mod;
  x = (s.x + r.x) % word_mod;
  y = (s.y + r.y) % word_mod;
  z = (s.z + r.z) % word_mod;
}

-- `SHA1Transform(state, buffer, le)` on a machine that is little-endian or not: the first 64 bytes
-- are copied and worked on.
unfoldable pub sha1_transform : Bool → Registers → List ℕ → Bool → Registers
unfolding load rounds add_registers
sha1_transform machine_le state buffer le =
    add_registers state (rounds le 80 0 (load machine_le (take 64 buffer)) state)
