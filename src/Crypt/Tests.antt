-- ===== src/Crypt/Tests.antt =====
-- A known value of XXTEA, and the theorems at concrete inputs.
use caffeine_hx.Common.{ℕ, ◌-◌, ◌≡◌, refl, true, List, [], ◌∷◌, some, length, arith}
use caffeine_hx.Common.Int.{pos}
use caffeine_hx.Common.Words.{word_mod}
use caffeine_hx.Crypt.Tea.{xxtea, encrypt_cycles, encrypt_cycle, mx}
use caffeine_hx.Crypt.Tea.Binding.{items, words_of, decrypt_block-encrypt_block}
use caffeine_hx.Crypt.Tea.Block.{
  xxtea_encrypt_block, xxtea_decrypt_block, string_of, int, array, key, result,
}
use caffeine_hx.Crypt.Tea.Inverse.{IsWords}
use caffeine_hx.Crypt.Tea.RoundTrip.{xxtea-xxtea}

abbrev two : List ℕ
two = 0 ∷ 0 ∷ []

abbrev zero_key : List ℕ
zero_key = 0 ∷ 0 ∷ 0 ∷ 0 ∷ []

two-IsWords : IsWords two
two-IsWords i = ground arith

-- The published value for zeros.
xxtea_zeros : xxtea zero_key two 2 ≡ some (0x053704ab ∷ 0x575d8c80 ∷ [], 0)
unfolding xxtea encrypt_cycles encrypt_cycle mx
xxtea_zeros = refl

xxtea-xxtea_example :
    (w : List ℕ) × (xxtea zero_key two 2 ≡ some (w, 0))
    × (xxtea zero_key w (word_mod - 2) ≡ some (two, 0))
    × (length w ≡ 2)
    × IsWords w
xxtea-xxtea_example = xxtea-xxtea zero_key two (omega arith) (omega arith) two-IsWords

decrypt_block-encrypt_block_example :
    (cipher : List ℕ) × (xxtea_encrypt_block true
        (array (items two))
        (int (pos 2))
        (key zero_key)
        true
      ≡ result cipher)
    × (xxtea_decrypt_block true
          (array (items (words_of true cipher)))
          (int (pos 2))
          (key zero_key)
          true
        ≡ result (string_of true two))
decrypt_block-encrypt_block_example =
    decrypt_block-encrypt_block true zero_key two (omega arith) (omega arith) two-IsWords
