-- ===== src/Openssl/Random.antt =====
-- Primes and random numbers of dll_src/openssl/src/bn_neko.cpp.
use caffeine_hx.Common.{ℕ, ◌≡◌, zero, suc, Bool, true, false, [], ◌∷◌, ◌++◌, Option, none, some}
use caffeine_hx.Common.Int.{ℤ, pos, negsuc}
use caffeine_hx.Openssl.{
  Bignum, Bn, Value, null, int, bool, string, big, array_of_two, other_value, Message, random_error,
  prime_error, bits_below_zero, Heap, result, thrown, neko_error, undefined, Act, with_kind,
  with_int, on_number, deref, bi_allocate,
}
use caffeine_hx.Openssl.Live.{
  IsLive, IsGood, with_kind-IsGood, with_int-IsGood, on_number-IsGood, deref-IsGood, allocate-Stays,
  bi_allocate-IsGood, thrown-IsGood, bool-IsGood,
}

-- `(t==0) ? 0 : (t<0) ? -1 : 1` and `(b==0) ? 0 : 1`
abbrev pub top_of : ℤ → ℤ
top_of (pos zero) = pos 0
top_of (pos (suc n)) = pos 1
top_of (negsuc n) = negsuc 0

abbrev pub bottom_of : ℤ → ℤ
bottom_of (pos zero) = pos 0
bottom_of _ = pos 1

-- `val_check(v, bool)`
abbrev pub with_bool : (Bool → Act) → Value → Act
with_bool use_bool (bool b) h = use_bool b h
with_bool use_bool _ h = neko_error h

module _ (bn : Bn) where
  -- A new number, which an exception leaves to the collector.
  abbrev pub filled_or : Message → Bignum → Option Bignum → Act
  filled_or m z none h = thrown m (h ++ some z ∷ [])
  filled_or m z (some x) h = bi_allocate x h

  -- What BN_rand or BN_pseudo_rand gives at the call, for a new number, is an argument.
  abbrev pub random_number : (Bignum → ℕ → ℤ → ℤ → Option Bignum) → ℤ → ℤ → ℤ → Act
  random_number rand (pos nb) t b h =
      on_number (λ z. filled_or random_error z (rand z nb (top_of t) (bottom_of b))) bn.new h
  random_number rand (negsuc n) t b h = result null h

  abbrev pub random_with : (Bignum → ℕ → ℤ → ℤ → Option Bignum) → Value → Value → Value → Act
  random_with rand bits top bottom h =
      with_int (λ nb. with_int (λ t. with_int (λ b. random_number rand nb t b) bottom) top) bits h

  unfoldable pub bi_rand : (Bignum → ℕ → ℤ → ℤ → Option Bignum) → Value → Value → Value → Act
  bi_rand rand bits top bottom h = random_with rand bits top bottom h

  unfoldable pub bi_pseudo_rand : (Bignum → ℕ → ℤ → ℤ → Option Bignum) → Value → Value → Value → Act
  bi_pseudo_rand pseudo_rand bits top bottom h = random_with pseudo_rand bits top bottom h

  abbrev pub with_made : Heap → Option Bignum → Heap
  with_made h none = h
  with_made h (some z) = h ++ some z ∷ []

  -- What BN_generate_prime_ex gives at the call is an argument.
  abbrev pub prime_of : (Bignum → ℕ → Bool → Option Bignum) → Bool → ℤ → Act
  prime_of generate safe (pos nb) h =
      on_number (λ z. filled_or prime_error z (generate z nb safe)) bn.new h
  prime_of generate safe (negsuc n) h = thrown bits_below_zero (with_made h bn.new)

  unfoldable pub bi_generate_prime : (Bignum → ℕ → Bool → Option Bignum) → Value → Value → Act
  bi_generate_prime generate bits safe h =
      with_int (λ nb. with_bool (λ safe. prime_of generate safe nb) safe) bits h

  abbrev pub is_prime_answer : ℤ → Act
  is_prime_answer (negsuc n) h = thrown prime_error h
  is_prime_answer (pos zero) h = result (bool false) h
  is_prime_answer (pos (suc n)) h = result (bool true) h

  -- The number of iterations and the Boolean are read without a check; what BN_is_prime_fasttest_ex gives
  -- at the call is an argument.
  abbrev pub tested : (Bignum → ℤ → Bool → ℤ) → Bignum → Value → Value → Act
  tested fasttest x (int n) (bool trial) h = is_prime_answer (fasttest x n trial) h
  tested fasttest x _ _ h = undefined

  unfoldable pub bi_is_prime : (Bignum → ℤ → Bool → ℤ) → Value → Value → Value → Act
  bi_is_prime fasttest a iterations trial h =
      with_kind (deref (λ i x. tested fasttest x iterations trial)) a h

  filled_or-IsGood :
      (m : Message) (z : Bignum) (o : Option Bignum) (h : Heap) → IsGood h (filled_or m z o h)
  unfolding IsGood
  filled_or-IsGood m z none h = allocate-Stays h z
  filled_or-IsGood m z (some x) h = bi_allocate-IsGood h x

  random_number-IsGood :
      (z : Bignum) (had : bn.new ≡ some z) (rand : Bignum → ℕ → ℤ → ℤ → Option Bignum) (nb t b : ℤ)
      (h : Heap)
      → IsGood h (random_number rand nb t b h)
  unfolding IsGood
  random_number-IsGood z had rand (pos n) t b h =
      on_number-IsGood _ h bn.new z had (filled_or-IsGood random_error z _ h)
  random_number-IsGood z had rand (negsuc n) t b h = (tt, λ i a. a)

  -- Where BN_new gives a number, random numbers of any arguments use no freed number and no NULL, and leave all numbers there.
  pub bi_rand-IsGood :
      (z : Bignum) (had : bn.new ≡ some z) (rand : Bignum → ℕ → ℤ → ℤ → Option Bignum)
      (bits top bottom : Value) (h : Heap)
      → IsGood h (bi_rand rand bits top bottom h) × IsGood h (bi_pseudo_rand rand bits top bottom h)
  unfolding bi_rand bi_pseudo_rand
  bi_rand-IsGood z had rand bits top bottom h = (good, good)
    where
      good : IsGood h (random_with rand bits top bottom h)
      good = with_int-IsGood _ bits h (λ nb.
          with_int-IsGood _ top h
            (λ t. with_int-IsGood _ bottom h (λ b. random_number-IsGood z had rand nb t b h)))

  prime_of-IsGood :
      (z : Bignum) (had : bn.new ≡ some z) (generate : Bignum → ℕ → Bool → Option Bignum)
      (safe : Bool) (nb : ℤ) (h : Heap)
      → IsGood h (prime_of generate safe nb h)
  unfolding IsGood
  prime_of-IsGood z had generate safe (pos n) h =
      on_number-IsGood _ h bn.new z had (filled_or-IsGood prime_error z _ h)
  prime_of-IsGood z had generate safe (negsuc n) h = rw had (allocate-Stays h z)

  with_bool-IsGood :
      (use_bool : Bool → Act) (v : Value) (h : Heap)
      → ((b : Bool) → IsGood h (use_bool b h))
      → IsGood h (with_bool use_bool v h)
  unfolding IsGood
  with_bool-IsGood use_bool (bool b) h each = each b
  with_bool-IsGood use_bool null h each = λ i a. a
  with_bool-IsGood use_bool (int n) h each = λ i a. a
  with_bool-IsGood use_bool (big p) h each = λ i a. a
  with_bool-IsGood use_bool (string s) h each = λ i a. a
  with_bool-IsGood use_bool (array_of_two i j) h each = λ i a. a
  with_bool-IsGood use_bool other_value h each = λ i a. a

  -- So does the generation of a prime.
  pub bi_generate_prime-IsGood :
      (z : Bignum) (had : bn.new ≡ some z) (generate : Bignum → ℕ → Bool → Option Bignum)
      (bits safe : Value) (h : Heap)
      → IsGood h (bi_generate_prime generate bits safe h)
  unfolding bi_generate_prime
  bi_generate_prime-IsGood z had generate bits safe h =
      with_int-IsGood _ bits h
        (λ nb. with_bool-IsGood _ safe h (λ b. prime_of-IsGood z had generate b nb h))

  is_prime_answer-IsGood : (r : ℤ) (h : Heap) → IsGood h (is_prime_answer r h)
  is_prime_answer-IsGood (negsuc n) h = thrown-IsGood h prime_error
  is_prime_answer-IsGood (pos zero) h = bool-IsGood h false
  is_prime_answer-IsGood (pos (suc n)) h = bool-IsGood h true

  -- And so does the test of a number that is there, with an int and a Boolean.
  pub bi_is_prime-IsGood :
      (fasttest : Bignum → ℤ → Bool → ℤ) (a : Value) (n : ℤ) (trial : Bool) (h : Heap)
      → IsLive h a
      → IsGood h (bi_is_prime fasttest a (int n) (bool trial) h)
  unfolding bi_is_prime
  bi_is_prime-IsGood fasttest a n trial h la =
      with_kind-IsGood _ a h la
        (λ p lp. deref-IsGood _ p h lp (λ i x ai. is_prime_answer-IsGood _ h))
