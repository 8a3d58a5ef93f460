-- ===== src/Openssl/RoundTrip.antt =====
-- What the conversions of dll_src/openssl/src/bn_neko.cpp give back.
use caffeine_hx.Common.{
  ℕ, zero, suc, ◌+◌, ◌-◌, ◌*◌, ◌%◌, ◌^◌, ◌<◌, ◌≡◌, ◌⊎◌, inl, inr, refl, ap, sym, ◌∙◌, Bool, true,
  false, Bool-cases, List, [], ◌∷◌, ◌++◌, some, length, ltb, lt→ltb, ◌==◌, if◌then◌else◌, arith,
}
use caffeine_hx.Common.Int.{ℤ, pos, negsuc}
use caffeine_hx.Common.Slots.{slot, slot-lt, slot-set_within}
use caffeine_hx.Openssl.{
  Bignum, Bn, int, string, big, conversion_error, Heap, result, thrown, store, bi_allocate,
}
use caffeine_hx.Openssl.Convert.{
  strip_zeros, zero_or, bi_dec_string, length_bytes, abs_word, set_neg, low_word, signed, to_int32,
  bi_from_int32, bi_to_int32, bi_to_mpi, bi_from_mpi,
}

-- The number that the digits stand for behind n, the highest first.
unfoldable pub digits_value : ℕ → (ℕ → ℕ) → ℕ → List ℕ → ℕ
digits_value b digit n [] = n
digits_value b digit n (c ∷ cs) = digits_value b digit (n * b + digit c) cs

-- "0", or no zero in front
abbrev pub NoZeros : List ℕ → Type 0
NoZeros v = (v ≡ 48 ∷ []) ⊎ ((c : ℕ) × ((cs : List ℕ) × (v ≡ c ∷ cs) × ((c == 48) ≡ false)))

abbrev pub Stripped : ℕ → (ℕ → ℕ) → List ℕ → Type 0
Stripped b digit v =
    (digits_value b digit 0 (zero_or (strip_zeros v)) ≡ digits_value b digit 0 v)
    × NoZeros (zero_or (strip_zeros v))

strip_zeros-Stripped : (b : ℕ) (digit : ℕ → ℕ) → digit 48 ≡ 0 → (v : List ℕ) → Stripped b digit v
unfolding digits_value
strip_zeros-Stripped b digit none_of [] = (ap (λ t. 0 * b + t) none_of ∙ omega arith, inl refl)
strip_zeros-Stripped b digit none_of (c ∷ cs) = elim (Bool-cases (c == 48)) [
  | inl t ↦
      let (same, clean) = strip_zeros-Stripped b digit none_of cs in
      let is_zero : c ≡ 48 = ground (arith, t) in
      let nothing : 0 ≡ 0 * b + digit c = omega (arith, none_of, ap digit is_zero) in
      rw t (same ∙ ap (λ n. digits_value b digit n cs) nothing, clean)
  | inr t ↦ rw t (refl, inr (c, (cs, refl, t)))
]

-- `bi_dec_string` gives digits that stand for the same number, in any base in which '0' is 0, and are "0"
-- or do not start with '0'.
pub bi_dec_string-Stripped :
    (b : ℕ) (digit : ℕ → ℕ)
    → digit 48 ≡ 0
    → (v : List ℕ)
    → (digits_value b digit 0 (bi_dec_string (some v)) ≡ digits_value b digit 0 v)
      × NoZeros (bi_dec_string (some v))
unfolding bi_dec_string
bi_dec_string-Stripped b digit none_of v = strip_zeros-Stripped b digit none_of v

-- An `int` of 32 bits
abbrev pub IsInt : ℤ → Type 0
IsInt (pos n) = n < 2 ^ 31
IsInt (negsuc n) = n < 2 ^ 31

module _ (bn : Bn) where
  -- BN_set_word gives a number that is not negative, of no word or one.
  pub record SetsWord : Type 0 where
    pub set_words : (x : Bignum) (w : ℕ) → (bn.set_word x w).words ≡ (if w == 0 then [] else w ∷ [])
    pub not_neg : (x : Bignum) (w : ℕ) → (bn.set_word x w).neg ≡ false

  to_int32-words :
      (x : Bignum) (w : ℕ) (b : Bool)
      → x.words ≡ w ∷ []
      → x.neg ≡ b
      → to_int32 bn x x.words ≡ signed (low_word w b)
  to_int32-words x w b p q = rw (p, q) refl

  signed-low_word : (n : ℕ) → n < 2 ^ 31 → signed (low_word n false) ≡ pos n
  signed-low_word n h =
      let same : n % 2 ^ 32 ≡ n = omega (arith, h) in
      let below : ltb n (2 ^ 31) ≡ true = lt→ltb n (2 ^ 31) h in rw (same, below) refl

  signed-low_word_neg : (n : ℕ) → n < 2 ^ 31 → signed (low_word (suc n) true) ≡ negsuc n
  signed-low_word_neg n h =
      let same : (2 ^ 32 - suc n % 2 ^ 32) % 2 ^ 32 ≡ 2 ^ 32 - suc n = omega (arith, h) in
      let above : ltb (2 ^ 32 - suc n) (2 ^ 31) ≡ false = ground (arith, h) in
      let back : 2 ^ 32 - (2 ^ 32 - suc n) - 1 ≡ n = omega (arith, h) in rw (same, above, back) refl

  one_word : SetsWord → (x : Bignum) (w : ℕ) → (w == 0) ≡ false → (bn.set_word x w).words ≡ w ∷ []
  one_word sets x w h = sets.set_words x w ∙ rw h refl

  to_int32-set_word :
      SetsWord
      → (x : Bignum) (n : ℤ) → IsInt n
      → to_int32 bn
          (set_neg n (bn.set_word x (abs_word n)))
          (set_neg n (bn.set_word x (abs_word n))).words
        ≡ n
  to_int32-set_word sets x (pos zero) h = rw (sets.set_words x 0) refl
  to_int32-set_word sets x (pos (suc n)) h =
      to_int32-words (bn.set_word x (suc n)) (suc n) false (one_word sets x (suc n) (ground arith))
        (sets.not_neg x (suc n))
      ∙ signed-low_word (suc n) h
  to_int32-set_word sets x (negsuc n) h = elim (Bool-cases (n == 2 ^ 31 - 1)) [
    | inl t ↦
        let least : n ≡ 2 ^ 31 - 1 = ground (arith, t) in
        let word : abs_word (negsuc n) ≡ 2 ^ 64 - 2 ^ 31 = rw t refl in
        rw word (
          to_int32-words (record (bn.set_word x (2 ^ 64 - 2 ^ 31)) { neg = true }) (2 ^ 64 - 2 ^ 31)
            true (one_word sets x (2 ^ 64 - 2 ^ 31) refl) refl
          ∙ ap negsuc (sym least))
    | inr t ↦
        let word : abs_word (negsuc n) ≡ suc n = rw t refl in
        rw word (
          to_int32-words (record (bn.set_word x (suc n)) { neg = true }) (suc n) true
            (one_word sets x (suc n) (ground arith)) refl
          ∙ signed-low_word_neg n h)
  ]

  -- Over a BN_set_word that sets the word, an `int` of 32 bits that `bi_from_int32` stores is had back by
  -- `bi_to_int32`.
  pub bi_to_int32-bi_from_int32 :
      SetsWord
      → (i : ℕ) (x : Bignum) (n : ℤ) (h : Heap) → slot h i ≡ some x
      → IsInt n
      → (h' : Heap) × ((bi_from_int32 bn (big (some i)) (int n) h ≡ result (big (some i)) h')
          × (bi_to_int32 bn (big (some i)) h' ≡ result (int n) h'))
  unfolding bi_from_int32 bi_to_int32
  bi_to_int32-bi_from_int32 sets i x n h there fits =
      let y : Bignum = set_neg n (bn.set_word x (abs_word n)) in
      let kept : slot (store i y h) i ≡ some y = slot-set_within h i (some y) (slot-lt h i there) in
      (store i y h, (rw there refl, rw (kept, to_int32-set_word sets x n fits) refl))

  -- What BN_bn2mpi gives is the length of a body, in four bytes, and the body, which is empty for zero;
  -- BN_mpi2bn reads it.
  module _ (body : Bignum → List ℕ) (again : Bignum → Bignum) where
    pub record IsMpi : Type 0 where
      pub mpi : (x : Bignum) → bn.bn2mpi x ≡ length_bytes (length (body x)) ++ body x
      pub read_back :
          (x : Bignum) → bn.mpi2bn (length_bytes (length (body x)) ++ body x) ≡ some (again x)

    -- `bi_to_mpi` gives the body alone, and `bi_from_mpi` of it makes the number that BN_mpi2bn reads; but a
    -- number with an empty body, zero, is an exception.
    pub bi_from_mpi-bi_to_mpi :
        IsMpi
        → (i : ℕ) (x : Bignum) (h : Heap) → slot h i ≡ some x
        → ((body x ≡ []) × (bi_to_mpi bn (big (some i)) h ≡ thrown conversion_error h))
          ⊎ ((bi_to_mpi bn (big (some i)) h ≡ result (string (body x)) h)
              × (bi_from_mpi bn (string (body x)) h ≡ bi_allocate (again x) h))
    unfolding bi_to_mpi bi_from_mpi
    bi_from_mpi-bi_to_mpi is i x h there = go (body x) refl
      where
        go :
            (b : List ℕ)
            → body x ≡ b
            → ((body x ≡ []) × (bi_to_mpi bn (big (some i)) h ≡ thrown conversion_error h))
              ⊎ ((bi_to_mpi bn (big (some i)) h ≡ result (string (body x)) h)
                  × (bi_from_mpi bn (string (body x)) h ≡ bi_allocate (again x) h))
        go [] p = inl (p, rw (there, is.mpi x, p) refl)
        go (b ∷ bs) p =
            let read =
              ap (λ c. bn.mpi2bn (length_bytes (length c) ++ c)) (sym p) ∙ is.read_back x in
            inr (rw (there, is.mpi x, p) (ground arith), rw (p, read) refl)
