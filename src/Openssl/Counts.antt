-- ===== src/Openssl/Counts.antt =====
-- The bits that dll_src/openssl/src/bn_neko.cpp counts and finds.
use caffeine_hx.Common.{
  ℕ, zero, suc, ◌+◌, ◌*◌, ◌/◌, ◌%◌, ◌^◌, ◌<◌, ◌≡◌, ◌⊎◌, inl, inr, refl, ap, sym, ◌∙◌, true, false,
  Bool-cases, some, ◌==◌, arith,
}
use caffeine_hx.Common.Int.{ℤ, pos, negsuc}
use caffeine_hx.Common.Slots.{slot}
use caffeine_hx.Openssl.{Bignum, Bn, int, big, Heap, result}
use caffeine_hx.Openssl.Bits.{count_bits, bi_bits_set, first_bit, bi_lowest_bit_set}
use native.Mathlib.Nat.{div-div-eq-div-mul, mul-div_cancel, mul_assoc, one-le-pow}

-- How many of the lowest `left` bits of a number are 1.
unfoldable pub ones : ℕ → ℕ → ℕ
ones zero n = 0
ones (suc left) n = n % 2 + ones left (n / 2)

ones_none : (k : ℕ) → ones k 0 ≡ 0
unfolding ones
ones_none zero = refl
ones_none (suc k) = omega (arith, ones_none k)

-- Beyond the bits of a number there are none.
ones-ones : (k j n : ℕ) → n < 2 ^ k → n < 2 ^ j → ones k n ≡ ones j n
unfolding ones
ones-ones zero j n h i =
    let empty : 0 ≡ n = omega (arith, h) in sym (ones_none j) ∙ ap (ones j) empty
ones-ones (suc k) zero n h i =
    let empty : n ≡ 0 = omega (arith, i) in ap (ones (suc k)) empty ∙ ones_none (suc k)
ones-ones (suc k) (suc j) n h i =
    ap (λ t. n % 2 + t) (ones-ones k j (n / 2) (omega (arith, h)) (omega (arith, i)))

shifted : (n x : ℕ) → n / 2 ^ suc x ≡ n / 2 ^ x / 2
shifted n x = sym (div-div-eq-div-mul n (2 ^ x) 2 ∙ ap (λ d. n / d) (omega arith))

bit_cases : (n : ℕ) → (((n % 2 == 1) ≡ true) × (n % 2 ≡ 1)) ⊎ (((n % 2 == 1) ≡ false) × (n % 2 ≡ 0))
bit_cases n = elim (Bool-cases (n % 2 == 1)) [
  | inl t ↦ inl (t, ground (arith, t))
  | inr t ↦ inr (t, ground (arith, t))
]

module _ (bn : Bn) (value_of : Bignum → ℕ) where
  -- BN_num_bits and BN_is_bit_set are about the bits of the number's absolute value.
  pub record HasBits : Type 0 where
    pub bits_bound : (a : Bignum) → value_of a < 2 ^ bn.num_bits a
    pub bit_is : (a : Bignum) (x : ℕ) → bn.is_bit_set a (pos x) ≡ (value_of a / 2 ^ x % 2 == 1)

  count_bits-ones :
      HasBits
      → (left : ℕ) (a : Bignum) (x c : ℕ)
      → count_bits bn left a x c ≡ c + ones left (value_of a / 2 ^ x)
  unfolding count_bits ones
  count_bits-ones has zero a x c = omega arith
  count_bits-ones has (suc left) a x c = elim (bit_cases (value_of a / 2 ^ x)) [
    | inl (t, one) ↦
        let rest =
          count_bits-ones has left a (suc x) (suc c)
          ∙ ap (λ n. suc c + ones left n) (shifted (value_of a) x) in
        rw (has.bit_is a x, t, one) (rest ∙ omega arith)
    | inr (t, off) ↦
        let rest =
          count_bits-ones has left a (suc x) c
          ∙ ap (λ n. c + ones left n) (shifted (value_of a) x) in
        rw (has.bit_is a x, t, off) (rest ∙ omega arith)
  ]

  -- `bi_bits_set` gives how many bits of the absolute value are 1, counted over any number of bits that has
  -- them all, and leaves the numbers.
  pub bi_bits_set-ones :
      HasBits
      → (i k : ℕ) (x : Bignum) (h : Heap) → slot h i ≡ some x
      → value_of x < 2 ^ k
      → bi_bits_set bn (big (some i)) h ≡ result (int (pos (ones k (value_of x)))) h
  unfolding bi_bits_set
  bi_bits_set-ones has i k x h there fits =
      let whole : value_of x / 2 ^ 0 ≡ value_of x = omega arith in
      let count : count_bits bn (bn.num_bits x) x 0 0 ≡ ones k (value_of x) =
        let all =
          count_bits-ones has (bn.num_bits x) x 0 0 ∙ ap (λ n. 0 + ones (bn.num_bits x) n) whole in
        let same = ones-ones (bn.num_bits x) k (value_of x) (has.bits_bound x) fits in
        omega (arith, all, same) in
      rw (there, count) refl

  -- -1 for 0, and else the exponent of 2 in the number.
  abbrev pub IsLowest : ℕ → ℤ → Type 0
  IsLowest n r =
      ((n ≡ 0) × (r ≡ negsuc 0))
      ⊎ ((y : ℕ) × ((q : ℕ) × (r ≡ pos y) × (n ≡ q * 2 ^ y) × (q % 2 ≡ 1)))

  first_bit-IsLowest :
      HasBits
      → (left : ℕ) (a : Bignum) (x q : ℕ) → value_of a ≡ q * 2 ^ x
      → q < 2 ^ left
      → IsLowest (value_of a) (first_bit bn left a x)
  unfolding first_bit
  first_bit-IsLowest has zero a x q split fits =
      let empty : q ≡ 0 = omega (arith, fits) in
      inl (split ∙ ap (λ q. q * 2 ^ x) empty ∙ omega arith, refl)
  first_bit-IsLowest has (suc left) a x q split fits =
      let here : value_of a / 2 ^ x ≡ q =
        ap (λ n. n / 2 ^ x) split ∙ mul-div_cancel q (one-le-pow x 2 (omega arith)) in
      elim (bit_cases q) [
        | inl (t, one) ↦ rw (has.bit_is a x, here, t) (inr (x, (q, refl, split, one)))
        | inr (t, off) ↦
            let half : q ≡ q / 2 * 2 = omega arith in
            let split' : value_of a ≡ q / 2 * 2 ^ suc x =
              split
              ∙ ap (λ q. q * 2 ^ x) half
              ∙ mul_assoc (q / 2) 2 (2 ^ x)
              ∙ ap (λ t. q / 2 * t) (omega arith) in
            rw (has.bit_is a x, here, t)
              (first_bit-IsLowest has left a (suc x) (q / 2) split' (omega (arith, fits)))
      ]

  -- `bi_lowest_bit_set` gives -1 for 0, and else the exponent of 2 in the number: the absolute value is an
  -- odd number times that power of 2; it leaves the numbers.
  pub bi_lowest_bit_set-IsLowest :
      HasBits
      → (i : ℕ) (x : Bignum) (h : Heap) → slot h i ≡ some x
      → (r : ℤ) × ((bi_lowest_bit_set bn (big (some i)) h ≡ result (int r) h)
          × IsLowest (value_of x) r)
  unfolding bi_lowest_bit_set
  bi_lowest_bit_set-IsLowest has i x h there =
      let whole : value_of x ≡ value_of x * 2 ^ 0 = omega arith in
      (
        first_bit bn (bn.num_bits x) x 0,
        (
          rw there refl,
          first_bit-IsLowest has (bn.num_bits x) x 0 (value_of x) whole (has.bits_bound x),
        ),
      )
