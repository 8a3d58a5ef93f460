-- ===== src/Openssl/Tests.antt =====
-- Runs of the primitives of dll_src/openssl/src/bn_neko.cpp on small numbers.
use caffeine_hx.Common.{
  ℕ, zero, suc, ◌+◌, ◌-◌, ◌/◌, ◌%◌, ◌^◌, ◌<◌, ◌≡◌, refl, ◌⊎◌, Bool, Bool-cases, true, false, inl,
  inr, List, [], ◌∷◌, ◌++◌, none, some, length, set, drop, ◌==◌, if◌then◌else◌, arith,
}
use caffeine_hx.Common.Int.{ℤ, pos, negsuc}
use caffeine_hx.Common.Slots.{slot}
use caffeine_hx.Openssl.{
  Bignum, Bn, int, bool, string, big, Heap, result, thrown, conversion_error, aborted, undefined,
}
use caffeine_hx.Openssl.Arith.{bi_add_to, destroy_biginteger}
use caffeine_hx.Openssl.Convert.{
  bi_dec_string, bi_from_int32, bi_to_int32, bi_to_mpi, bi_from_mpi, bi_from_hex, length_bytes,
}
use caffeine_hx.Openssl.Bits.{bi_bits_set, bi_lowest_bit_set}
use caffeine_hx.Openssl.Bitwise.{bi_bitwise_to, bi_not}
use caffeine_hx.Openssl.Counts.{
  ones, HasBits, IsLowest, bi_bits_set-ones, bi_lowest_bit_set-IsLowest,
}
use caffeine_hx.Openssl.RoundTrip.{
  digits_value, NoZeros, bi_dec_string-Stripped, SetsWord, bi_to_int32-bi_from_int32, IsMpi,
  bi_from_mpi-bi_to_mpi,
}
use caffeine_hx.Openssl.Complement.{natural, bi_not-natural}
use caffeine_hx.Openssl.Sizes.{HasRoom, bi_bitwise_to-aborted}

-- One word
abbrev word : ℕ → Bignum
word n = record { words = if n == 0 then [] else n ∷ []; dmax = 1; neg = false }

abbrev value_of : Bignum → ℕ
value_of x = natural x.words

-- How many bits a number below 2 ^ k has
unfoldable bit_length : ℕ → ℕ → ℕ
bit_length zero n = 0
bit_length (suc k) n = let rest = bit_length k (n / 2) in if n == 0 then 0 else suc rest

abbrev at_bit : Bignum → ℤ → Bool
at_bit x (pos n) = value_of x / 2 ^ n % 2 == 1
at_bit x (negsuc n) = false

abbrev grown : Bignum → ℕ → Bignum
grown x n = record x { dmax = x.dmax + n }

abbrev body : Bignum → List ℕ
body x = x.words

-- Numbers of one word, as far as the runs need them; what BN_bn2mpi gives has the words for bytes.
abbrev numbers : Bn
numbers = record {
  new = some (word 0);
  zero_ex = word 0;
  one = word 1;
  copy = λ z x. record { words = x.words; dmax = z.dmax + x.dmax; neg = x.neg };
  add = λ z x y. word ((value_of x + value_of y) % 2 ^ 64);
  sub = λ z x y. z;
  mul = λ z x y. z;
  remainder = λ z x y. z;
  mod_inverse = λ z x y. z;
  exp = λ z x y. z;
  gcd = λ z x y. z;
  sqr = λ z x. some z;
  div = λ q r x y. (q, r);
  mod_exp = λ z x y m. z;
  cmp = λ x y. pos 0;
  ucmp = λ x y. pos 0;
  is_one = λ x. pos 0;
  is_odd = λ x. pos 0;
  num_bits = λ x. bit_length (value_of x) (value_of x);
  num_bytes = λ x. length x.words;
  is_bit_set = λ x n. at_bit x n;
  set_bit = λ x n. x;
  clear_bit = λ x n. x;
  lshift = λ z x n. some z;
  rshift = λ z x n. some z;
  set_word = λ x w. word w;
  bn2hex = λ x. none;
  bn2dec = λ x. none;
  hex2bn = λ s. none;
  dec2bn = λ s. none;
  bn2bin = λ x. [];
  bn2mpi = λ x. length_bytes (length x.words) ++ x.words;
  bin2bn = λ s. none;
  mpi2bn = λ s. some (record { words = drop 4 s; dmax = 1; neg = false });
  wexpand = λ x n. some (grown x n);
  fix_top = λ x. x;
}

lt-power : (n : ℕ) → n < 2 ^ n
lt-power zero = omega arith
lt-power (suc n) = omega (arith, lt-power n)

bit_length-lt : (k n : ℕ) → n < 2 ^ k → n < 2 ^ bit_length k n
unfolding bit_length
bit_length-lt zero n h = h
bit_length-lt (suc k) n h = elim (Bool-cases (n == 0)) [
  | inl t ↦ let empty : n ≡ 0 = ground (arith, t) in rw (t, empty) (omega arith)
  | inr t ↦
      let half = bit_length-lt k (n / 2) (omega (arith, h)) in
      let whole : n < 2 ^ suc (bit_length k (n / 2)) = omega (arith, half) in rw t whole
]

numbers-HasBits : HasBits numbers value_of
numbers-HasBits = record {
  bits_bound = λ a. bit_length-lt (value_of a) (value_of a) (lt-power (value_of a));
  bit_is = λ a x. refl;
}

-- 12, 5 and a number of two words
abbrev heap : Heap
heap =
    some (word 12)
    ∷ some (word 5)
    ∷ some (record { words = 1 ∷ 1 ∷ []; dmax = 2; neg = false })
    ∷ []

heap_zero : slot heap 0 ≡ some (word 12)
unfolding slot
heap_zero = refl

heap_one : slot heap 1 ≡ some (word 5)
unfolding slot
heap_one = refl

heap_two : slot heap 2 ≡ some (record { words = 1 ∷ 1 ∷ []; dmax = 2; neg = false })
unfolding slot
heap_two = refl

bi_bits_set-ones_example :
    bi_bits_set numbers (big (some 0)) heap ≡ result (int (pos (ones 4 12))) heap
bi_bits_set-ones_example =
    bi_bits_set-ones numbers value_of numbers-HasBits 0 4 (word 12) heap heap_zero (omega arith)

bi_lowest_bit_set-IsLowest_example :
    (r : ℤ) × ((bi_lowest_bit_set numbers (big (some 0)) heap ≡ result (int r) heap)
      × IsLowest numbers value_of 12 r)
bi_lowest_bit_set-IsLowest_example =
    bi_lowest_bit_set-IsLowest numbers value_of numbers-HasBits 0 (word 12) heap heap_zero

abbrev decimal_digit : ℕ → ℕ
decimal_digit c = c - 48

bi_dec_string-Stripped_example :
    (digits_value 10 decimal_digit 0 (bi_dec_string (some (48 ∷ 48 ∷ 55 ∷ []))) ≡ 7)
    × NoZeros (bi_dec_string (some (48 ∷ 48 ∷ 55 ∷ [])))
unfolding digits_value
bi_dec_string-Stripped_example = bi_dec_string-Stripped 10 decimal_digit refl (48 ∷ 48 ∷ 55 ∷ [])

numbers-SetsWord : SetsWord numbers
numbers-SetsWord = record { set_words = λ x w. refl; not_neg = λ x w. refl }

bi_to_int32-bi_from_int32_example :
    (h' : Heap) × ((bi_from_int32 numbers (big (some 0)) (int (negsuc 6)) heap
        ≡ result (big (some 0)) h')
      × (bi_to_int32 numbers (big (some 0)) h' ≡ result (int (negsuc 6)) h'))
bi_to_int32-bi_from_int32_example =
    bi_to_int32-bi_from_int32 numbers numbers-SetsWord 0 (word 12) (negsuc 6) heap heap_zero
      (omega arith)

numbers-IsMpi : IsMpi numbers body (λ x. record { words = x.words; dmax = 1; neg = false })
numbers-IsMpi = record { mpi = λ x. refl; read_back = λ x. refl }

bi_from_mpi-bi_to_mpi_example :
    ((body (word 12) ≡ []) × (bi_to_mpi numbers (big (some 0)) heap ≡ thrown conversion_error heap))
    ⊎ ((bi_to_mpi numbers (big (some 0)) heap ≡ result (string (12 ∷ [])) heap)
        × (bi_from_mpi numbers (string (12 ∷ [])) heap
            ≡ result (big (some 3)) (heap ++ some (word 12) ∷ [])))
bi_from_mpi-bi_to_mpi_example =
    bi_from_mpi-bi_to_mpi numbers body (λ x. record { words = x.words; dmax = 1; neg = false })
      numbers-IsMpi 0 (word 12) heap heap_zero

bi_not-natural_example :
    (r : Bignum) × ((bi_not numbers (big (some 0)) heap
        ≡ result (big (some 3)) (heap ++ some r ∷ []))
      × (natural r.words + 12 + 1 ≡ 2 ^ 64)
      × (r.neg ≡ true))
bi_not-natural_example =
    bi_not-natural numbers (word 0) refl (λ z x. refl) 0 (word 12) heap heap_zero (omega arith, tt)

numbers-HasRoom : HasRoom numbers
numbers-HasRoom = record {
  copies = λ z x. refl;
  grown = grown;
  expands = λ x n. refl;
  grown_words = λ x n. refl;
  grown_room = λ x n. omega arith;
  grown_keeps = λ x n. omega arith;
}

bi_bitwise_to-aborted_example :
    bi_bitwise_to numbers (big (some 0)) (big (some 2)) (int (pos 4)) (big (some 1)) heap ≡ aborted
bi_bitwise_to-aborted_example =
    bi_bitwise_to-aborted numbers numbers-HasRoom 0 2 1 (word 12)
      (record { words = 1 ∷ 1 ∷ []; dmax = 2; neg = false }) (word 5) (pos 4) heap heap_zero
      heap_two heap_one (λ p. omega (arith, p)) (λ p. omega (arith, p)) (λ p. omega (arith, p))
      (omega arith) (omega arith) (λ p. omega (arith, p))

add_in_place :
    bi_add_to numbers (big (some 0)) (big (some 1)) (big (some 0)) heap
    ≡ result (big (some 0)) (set heap 0 (some (word 17)))
unfolding bi_add_to slot
add_in_place = refl

-- 12 xor 5 with the result in B: B is overwritten with A first, so the result is 0.
xor_in_place :
    bi_bitwise_to numbers (big (some 0)) (big (some 1)) (int (pos 4)) (big (some 1)) heap
    ≡ result (bool true) (
        some (record { words = 12 ∷ []; dmax = 2; neg = false })
        ∷ some (record { words = 0 ∷ []; dmax = 4; neg = false })
        ∷ some (record { words = 1 ∷ 1 ∷ []; dmax = 2; neg = false })
        ∷ [])
unfolding bi_bitwise_to slot
xor_in_place = refl

-- No digits make a big integer of a NULL pointer, which the next primitive uses.
null_number :
    (bi_from_hex numbers (string []) heap ≡ result (big none) heap)
    × (bi_not numbers (big none) heap ≡ undefined)
unfolding bi_from_hex bi_not
null_number = (refl, refl)

-- The finalizer is exported: a script's call and the collector's free a number twice.
destroyed_twice :
    (destroy_biginteger numbers (big (some 0)) heap ≡ some (set heap 0 none))
    × (destroy_biginteger numbers (big (some 0)) (set heap 0 none) ≡ none)
unfolding destroy_biginteger slot
destroyed_twice = (refl, refl)
