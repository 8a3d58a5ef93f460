-- ===== src/Openssl/Bits.antt =====
-- The bits of a big integer of dll_src/openssl/src/bn_neko.cpp.
use caffeine_hx.Common.{ℕ, zero, suc, true, Option, if◌then◌else◌}
use caffeine_hx.Common.Int.{ℤ, pos, negsuc}
use caffeine_hx.Openssl.{
  Bignum, Bn, Value, int, bool, shift_error, result, Act, with_kind, with_int, deref, store,
}
use caffeine_hx.Openssl.Arith.{put_or}

module _ (bn : Bn) where
  abbrev pub shift_to : (Bignum → Bignum → ℤ → Option Bignum) → Value → Value → Value → Act
  shift_to f a n r h =
      with_kind
        (λ a.
          with_int
            (λ n.
              with_kind
                (λ r. deref (λ i x. deref (λ k z h. put_or bn shift_error k h (f z x n)) r) a) r)
            n)
        a h

  unfoldable pub bi_shl_to : Value → Value → Value → Act
  bi_shl_to a n r h = shift_to bn.lshift a n r h

  unfoldable pub bi_shr_to : Value → Value → Value → Act
  bi_shr_to a n r h = shift_to bn.rshift a n r h

  unfoldable pub bi_bitlength : Value → Act
  bi_bitlength a h = with_kind (deref (λ i x h. result (int (pos (bn.num_bits x))) h)) a h

  unfoldable pub bi_bytelength : Value → Act
  bi_bytelength a h = with_kind (deref (λ i x h. result (int (pos (bn.num_bytes x))) h)) a h

  -- The loop of `bi_bits_set` with `left` bits to go, from bit x on, and the count.
  unfoldable pub count_bits : ℕ → Bignum → ℕ → ℕ → ℕ
  count_bits zero a x c = c
  count_bits (suc left) a x c =
      count_bits left a (suc x) (if bn.is_bit_set a (pos x) then suc c else c)

  unfoldable pub bi_bits_set : Value → Act
  unfolding count_bits
  bi_bits_set a h =
      with_kind (deref (λ i x h. result (int (pos (count_bits (bn.num_bits x) x 0 0))) h)) a h

  -- The loop of `bi_lowest_bit_set`
  unfoldable pub first_bit : ℕ → Bignum → ℕ → ℤ
  first_bit zero a x = negsuc 0
  first_bit (suc left) a x =
      let rest = first_bit left a (suc x) in if bn.is_bit_set a (pos x) then pos x else rest

  unfoldable pub bi_lowest_bit_set : Value → Act
  unfolding first_bit
  bi_lowest_bit_set a h =
      with_kind (deref (λ i x h. result (int (first_bit (bn.num_bits x) x 0)) h)) a h

  abbrev pub change_bit : (Bignum → ℤ → Bignum) → Value → Value → Act
  change_bit f a n h =
      with_kind (λ a. with_int (λ n. deref (λ i x h. result (bool true) (store i (f x n) h)) a) n) a
        h

  unfoldable pub bi_set_bit : Value → Value → Act
  bi_set_bit a n h = change_bit bn.set_bit a n h

  unfoldable pub bi_clear_bit : Value → Value → Act
  bi_clear_bit a n h = change_bit bn.clear_bit a n h

  unfoldable pub flip_bit : Bignum → ℤ → Bignum
  flip_bit x n = if bn.is_bit_set x n then bn.clear_bit x n else bn.set_bit x n

  unfoldable pub bi_flip_bit : Value → Value → Act
  unfolding flip_bit
  bi_flip_bit a n h = change_bit flip_bit a n h

  unfoldable pub bi_test_bit : Value → Value → Act
  bi_test_bit a n h =
      with_kind (λ a. with_int (λ n. deref (λ i x h. result (bool (bn.is_bit_set x n)) h) a) n) a h
