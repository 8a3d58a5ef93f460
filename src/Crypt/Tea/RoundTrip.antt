-- ===== src/Crypt/Tea/RoundTrip.antt =====
-- The cycles of xxtea (dll_src/crypt/src/tea.cpp): decryption counts `sum` down to 0 over those of
-- encryption.
use caffeine_hx.Common.{
  ℕ, zero, suc, ◌+◌, ◌-◌, ◌*◌, ◌%◌, ◌≤◌, ◌<◌, ◌≡◌, ◌≢◌, refl, ◌∙◌, Bool-cases, inl, inr, List, some,
  length, ltb, leb, ◌&&◌, ◌==◌, arith, true, false, ◌^◌,
}
use caffeine_hx.Common.Words.{word_mod, add_word, sub_word}
use caffeine_hx.Crypt.Tea.{
  delta, word_at, encrypt_cycle, encrypt_cycles, decrypt_cycle, decrypt_cycles, cycles, xxtea,
}
use caffeine_hx.Crypt.Tea.Inverse.{IsWords, decrypt_cycle-encrypt_cycle, encrypt_cycle_keeps}

-- `sum` behind `i` cycles.
abbrev sum_at : ℕ → ℕ
sum_at i = (i * delta) % word_mod

sum_at-suc : (i : ℕ) → add_word (sum_at i) delta ≡ sum_at (suc i)
unfolding add_word
sum_at-suc i = omega arith

sum_at-back : (i : ℕ) → sub_word (sum_at (suc i)) delta ≡ sum_at i
unfolding sub_word
sum_at-back i = omega arith

sum_at-ne-zero : (i : ℕ) → 0 < i → i ≤ 32 → sum_at i ≢ 0
sum_at-ne-zero i h l e = omega arith

module _ (k : List ℕ) (n : ℕ) where
  decrypt_step :
      (fuel i y : ℕ) (v : List ℕ)
      → i < 32
      → decrypt_cycles k n (suc fuel) (sum_at (suc i)) y v
        ≡ decrypt_cycles k n fuel
            (sum_at i)
            (decrypt_cycle k n (sum_at (suc i)) y v).0
            (decrypt_cycle k n (sum_at (suc i)) y v).1
  unfolding decrypt_cycles
  decrypt_step fuel i y v h =
      let more : (sum_at (suc i) == 0) ≡ false =
        ground (arith, sum_at-ne-zero (suc i) (omega arith) (omega arith)) in
      rw (more, decrypt_cycles) (rw (sum_at-back i) refl)

  -- `q` cycles of encryption from `i` on, and decryption back to `i`.
  cycles_back :
      (q rest i : ℕ) (v : List ℕ)
      → length v ≡ n
      → 2 ≤ n
      → i + q ≤ 32
      → IsWords v
      → let w = encrypt_cycles k n q (sum_at i) (word_at v (n - 1)) v in
        decrypt_cycles k n (q + rest) (sum_at (i + q)) (word_at w 0) w
        ≡ decrypt_cycles k n rest (sum_at i) (word_at v 0) v
  unfolding encrypt_cycles
  cycles_back zero rest i v e h l words =
      let a : 0 + rest ≡ rest = omega arith in let b : i + 0 ≡ i = omega arith in rw (a, b) refl
  cycles_back (suc q) rest i v e h l words =
      let r = encrypt_cycle k n (sum_at (suc i)) (word_at v (n - 1)) v in
      let (size, range, last) = encrypt_cycle_keeps k (sum_at (suc i)) n v e h words in
      let a : suc q + rest ≡ q + suc rest = omega arith in
      let b : i + suc q ≡ suc i + q = omega arith in
      rw (sum_at-suc i, last, a, b)
        (cycles_back q (suc rest) (suc i) r.1 size h (omega arith) range
          ∙ decrypt_step rest i (word_at r.1 0) r.1 (omega arith)
          ∙ rw (decrypt_cycle-encrypt_cycle k (sum_at (suc i)) n v e h words) refl)

-- Encryption keeps the number of words and their range.
encrypt_cycles_keep :
    (k : List ℕ) (n q sum : ℕ) (v : List ℕ)
    → length v ≡ n
    → 2 ≤ n
    → IsWords v
    → let w = encrypt_cycles k n q sum (word_at v (n - 1)) v in (length w ≡ n) × IsWords w
unfolding encrypt_cycles
encrypt_cycles_keep k n zero sum v e h words = (e, words)
encrypt_cycles_keep k n (suc q) sum v e h words =
    let next = add_word sum delta in
    let (size, range, last) = encrypt_cycle_keeps k next n v e h words in
    rw last
      (encrypt_cycles_keep k n q next (encrypt_cycle k n next (word_at v (n - 1)) v).1 size h range)

cycles-le : (n : ℕ) → 2 ≤ n → cycles n ≤ 32
cycles-le n h = grind arith

-- Decryption of what encryption made of `n` words, at least two and fewer than 2 ^ 31: with the key of
-- the encryption and the count negated, xxtea ends with the words, and both results are 0. Encryption
-- gives as many words.
pub xxtea-xxtea :
    (k v : List ℕ)
    → 2 ≤ length v
    → length v < 2 ^ 31
    → IsWords v
    → (w : List ℕ) × (xxtea k v (length v) ≡ some (w, 0))
      × (xxtea k w (word_mod - length v) ≡ some (v, 0))
      × (length w ≡ length v)
      × IsWords w
unfolding xxtea
xxtea-xxtea k v h l words =
    let n = length v in
    let w = encrypt_cycles k n (cycles n) 0 (word_at v (n - 1)) v in
    let back = cycles_back k n (cycles n) 0 0 v refl h (omega (arith, cycles-le n h)) words in
    let fuel : cycles n + 0 ≡ cycles n = omega arith in
    let top : 0 + cycles n ≡ cycles n = omega arith in
    let up : (ltb 1 n && ltb n (2 ^ 31)) ≡ true = ground arith in
    let not_up : (ltb 1 (word_mod - n) && ltb (word_mod - n) (2 ^ 31)) ≡ false = ground arith in
    let down : (leb (2 ^ 31) (word_mod - n) && ltb (word_mod - n) (word_mod - 1)) ≡ true =
      ground arith in
    let count : word_mod - (word_mod - n) ≡ n = omega arith in
    let plain : decrypt_cycles k n (cycles n) (sum_at (cycles n)) (word_at w 0) w ≡ some v =
      rw (fuel, top) at back ∙ (unfold decrypt_cycles in refl) in
    let (size, range) = encrypt_cycles_keep k n (cycles n) 0 v refl h words in
    (w, rw up refl, rw (not_up, down, count, plain) refl, size, range)

decrypt_cycles-ends :
    (k : List ℕ) (n q y : ℕ) (v : List ℕ)
    → (w : List ℕ) × (decrypt_cycles k n q (sum_at q) y v ≡ some w)
unfolding decrypt_cycles
decrypt_cycles-ends k n zero y v = (v, refl)
decrypt_cycles-ends k n (suc q) y v = elim (Bool-cases (sum_at (suc q) == 0)) [
  | inl done ↦ (v, rw (done, decrypt_cycles) refl)
  | inr more ↦
      let (y', v') = decrypt_cycle k n (sum_at (suc q)) y v in
      let (w, h) = decrypt_cycles-ends k n q y' v' in
      (w, rw (more, decrypt_cycles) (rw (sum_at-back q) h))
]

-- xxtea ends for every key, words and count, with the result 0 or 1: decryption comes to the sum 0
-- within as many cycles as encryption has.
pub xxtea-ends :
    (k v : List ℕ) (n : ℕ) → (w : List ℕ) × ((r : ℕ) × ((xxtea k v n ≡ some (w, r)) × (r ≤ 1)))
unfolding xxtea
xxtea-ends k v n = elim (Bool-cases (ltb 1 n && ltb n (2 ^ 31))) [
  | inl up ↦ (encrypt_cycles k n (cycles n) 0 (word_at v (n - 1)) v, (0, (rw up refl, omega arith)))
  | inr not_up ↦ elim (Bool-cases (leb (2 ^ 31) n && ltb n (word_mod - 1))) [
    | inl down ↦
        let m = word_mod - n in
        let (w, h) = decrypt_cycles-ends k m (cycles m) (word_at v 0) v in
        (w, (0, (rw (not_up, down, h) refl, omega arith)))
    | inr not_down ↦ (v, (1, (rw (not_up, not_down) refl, omega arith)))
  ]
]
