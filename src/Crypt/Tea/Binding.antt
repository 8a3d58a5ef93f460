-- ===== src/Crypt/Tea/Binding.antt =====
-- xxtea_encrypt_block and xxtea_decrypt_block (dll_src/crypt/src/tea.cpp), one behind the other.
use caffeine_hx.Common.{
  ℕ, zero, suc, ◌+◌, ◌*◌, ◌/◌, ◌%◌, ◌^◌, ◌≤◌, ◌<◌, ◌≡◌, refl, ap, Bool, true, false, List, [], ◌∷◌,
  map, some, length, ltb, ◌==◌, arith, inr,
}
use caffeine_hx.Common.Int.{pos}
use caffeine_hx.Common.Words.{native_word}
use caffeine_hx.Crypt.Tea.Block.{
  Item, int32, int, array, key, result, words_in, xxtea_make_array, string_of, xxtea_encrypt_block,
  xxtea_decrypt_block,
}
use caffeine_hx.Crypt.Tea.Inverse.{IsWords}
use caffeine_hx.Crypt.Tea.RoundTrip.{xxtea-xxtea}

-- The array of the words.
abbrev pub items : List ℕ → List Item
items v = map int32 v

length-items : (v : List ℕ) → length (items v) ≡ length v
length-items [] = refl
length-items (w ∷ v) = ap suc (length-items v)

words_in-items : (v : List ℕ) → words_in (items v) ≡ some v
unfolding words_in
words_in-items [] = refl
words_in-items (w ∷ v) = rw (words_in-items v) refl

make_array-items :
    (v : List ℕ) → 2 ≤ length v → xxtea_make_array (array (items v)) (pos (length v)) true ≡ inr v
unfolding xxtea_make_array
make_array-items v h =
    let same : (length v == length v) ≡ true = ground arith in
    let enough : ltb (length v) 2 ≡ false = ground arith in
    rw (length-items v, same, enough, words_in-items v) refl

module _ (machine_le : Bool) where
  -- A script reads the words back from the string.
  unfoldable pub words_of : List ℕ → List ℕ
  words_of (a ∷ b ∷ c ∷ d ∷ bytes) = native_word machine_le a b c d ∷ words_of bytes
  words_of _ = []

words_of-string_of :
    (machine_le : Bool) (v : List ℕ) → IsWords v → words_of machine_le (string_of machine_le v) ≡ v
unfolding words_of string_of
words_of-string_of machine_le [] h = refl
words_of-string_of true (w ∷ v) h =
    let range = h zero in
    let back : w % 256
          + (w / 2 ^ 8) % 256 * 2 ^ 8
          + (w / 2 ^ 16) % 256 * 2 ^ 16
          + (w / 2 ^ 24) % 256 * 2 ^ 24
        ≡ w =
      omega arith in
    rw (words_of-string_of true v (λ i. h (suc i)), back) refl
words_of-string_of false (w ∷ v) h =
    let range = h zero in
    let back : (w / 2 ^ 24) % 256 * 2 ^ 24
          + (w / 2 ^ 16) % 256 * 2 ^ 16
          + (w / 2 ^ 8) % 256 * 2 ^ 8
          + w % 256
        ≡ w =
      omega arith in
    rw (words_of-string_of false v (λ i. h (suc i)), back) refl

module _ (machine_le : Bool) where
  -- Words encrypted by xxtea_encrypt_block, at least two and fewer than 2 ^ 31, are had back from the
  -- string by xxtea_decrypt_block with the same key, where memory is had: both give a string, and the
  -- second one is that of the words.
  pub decrypt_block-encrypt_block :
      (k v : List ℕ)
      → 2 ≤ length v
      → length v < 2 ^ 31
      → IsWords v
      → (cipher : List ℕ) × (xxtea_encrypt_block machine_le
            (array (items v))
            (int (pos (length v)))
            (key k)
            true
          ≡ result cipher)
        × (xxtea_decrypt_block machine_le
              (array (items (words_of machine_le cipher)))
              (int (pos (length v)))
              (key k)
              true
            ≡ result (string_of machine_le v))
  unfolding xxtea_encrypt_block xxtea_decrypt_block
  decrypt_block-encrypt_block k v h l words =
      let (w, up, down, size, range) = xxtea-xxtea k v h l words in
      let some_items : (length v == 0) ≡ false = ground arith in
      let there = make_array-items v h in
      let back : xxtea_make_array (array (items w)) (pos (length v)) true ≡ inr w =
        rw (← size) (make_array-items w (omega (arith, size))) in
      (
        string_of machine_le w,
        rw (length-items v, some_items, there, up) refl,
        rw (words_of-string_of machine_le w range, length-items w, size, some_items, back, down)
            refl,
      )
