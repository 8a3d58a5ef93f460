-- ===== src/Crypt/Tea.antt =====
-- xxtea of dll_src/crypt/src/tea.cpp: block encryption and decryption of words.
use Prim.Native.Nat.{bit_xor}
use caffeine_hx.Common.{
  ℕ, zero, suc, ◌+◌, ◌-◌, ◌*◌, ◌/◌, ◌%◌, ◌^◌, List, Option, none, some, get_or, set, ltb, leb, ◌&&◌,
  ◌==◌, if◌then◌else◌, true, false,
}
use caffeine_hx.Common.Words.{word_mod, add_word, sub_word}
pub mod Inverse
pub mod RoundTrip
pub mod Block
pub mod Binding

abbrev pub delta : ℕ
delta = 0x9e3779b9

abbrev pub word_at : List ℕ → ℕ → ℕ
word_at v i = get_or v i 0

-- `MX`
unfoldable pub mx : List ℕ → ℕ → ℕ → ℕ → ℕ → ℕ → ℕ
unfolding add_word
mx k z y sum p e =
    bit_xor
      (add_word (bit_xor (z / 2 ^ 5) ((y * 2 ^ 2) % word_mod))
        (bit_xor (y / 2 ^ 3) ((z * 2 ^ 4) % word_mod)))
      (add_word (bit_xor sum y) (bit_xor (word_at k (bit_xor (p % 4) e)) z))

-- `e`
abbrev pub key_of : ℕ → ℕ
key_of sum = (sum / 4) % 4

-- `6+52/n`
abbrev pub cycles : ℕ → ℕ
cycles n = 6 + 52 / n

module _ (k : List ℕ) where
  -- `for (p=0; p<n-1; p++)` from `p` on, with the rounds left: `z` and `v` behind it.
  unfoldable pub encrypt_words : ℕ → ℕ → ℕ → ℕ → List ℕ → ℕ × List ℕ
  encrypt_words sum zero p z v = (z, v)
  encrypt_words sum (suc left) p z v =
      let w = add_word (word_at v p) (mx k z (word_at v (p + 1)) sum p (key_of sum)) in
      encrypt_words sum left (p + 1) w (set v p w)

  -- The body of the loop of encryption, for a `sum` that is counted up already.
  unfoldable pub encrypt_cycle : ℕ → ℕ → ℕ → List ℕ → ℕ × List ℕ
  unfolding encrypt_words
  encrypt_cycle n sum z v =
      let (z', v') = encrypt_words sum (n - 1) 0 z v in
      let w = add_word (word_at v' (n - 1)) (mx k z' (word_at v' 0) sum (n - 1) (key_of sum)) in
      (w, set v' (n - 1) w)

  -- `while (q-- > 0)`
  unfoldable pub encrypt_cycles : ℕ → ℕ → ℕ → ℕ → List ℕ → List ℕ
  encrypt_cycles n zero sum z v = v
  encrypt_cycles n (suc q) sum z v =
      let next = add_word sum delta in
      let (z', v') = encrypt_cycle n next z v in encrypt_cycles n q next z' v'

  -- `for (p=n-1; p>0; p--)` from `p` on: `y` and `v` behind it.
  unfoldable pub decrypt_words : ℕ → ℕ → ℕ → List ℕ → ℕ × List ℕ
  decrypt_words sum zero y v = (y, v)
  decrypt_words sum (suc p) y v =
      let w = sub_word (word_at v (suc p)) (mx k (word_at v p) y sum (suc p) (key_of sum)) in
      decrypt_words sum p w (set v (suc p) w)

  unfoldable pub decrypt_cycle : ℕ → ℕ → ℕ → List ℕ → ℕ × List ℕ
  unfolding decrypt_words
  decrypt_cycle n sum y v =
      let (y', v') = decrypt_words sum (n - 1) y v in
      let w = sub_word (word_at v' 0) (mx k (word_at v' (n - 1)) y' sum 0 (key_of sum)) in
      (w, set v' 0 w)

  -- `while (sum != 0)` on fuel; nothing where it runs out.
  unfoldable pub decrypt_cycles : ℕ → ℕ → ℕ → ℕ → List ℕ → Option (List ℕ)
  decrypt_cycles n zero sum y v = if sum == 0 then some v else none
  decrypt_cycles n (suc fuel) sum y v = elim (sum == 0) [
    | true ↦ some v
    | false ↦
        let (y', v') = decrypt_cycle n sum y v in decrypt_cycles n fuel (sub_word sum delta) y' v'
  ]

  -- `xxtea(v, n, k)`: the words behind it and the result. `n` is read as an `int32_t`; decryption has
  -- as much fuel as encryption has cycles.
  unfoldable pub xxtea : List ℕ → ℕ → Option (List ℕ × ℕ)
  xxtea v n =
      if ltb 1 n && ltb n (2 ^ 31)
      then some (encrypt_cycles n (cycles n) 0 (word_at v (n - 1)) v, 0)
      else if leb (2 ^ 31) n && ltb n (word_mod - 1)
      then (let m = word_mod - n in
          let sum = (cycles m * delta) % word_mod in
          elim (decrypt_cycles m (cycles m) sum (word_at v 0) v) [
            | none ↦ none
            | some w ↦ some (w, 0)
          ])
      else some (v, 1)
