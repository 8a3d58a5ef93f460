-- ===== src/Openssl/Safe.antt =====
-- Which primitives of dll_src/openssl/src/bn_neko.cpp keep the numbers of scripts.
use caffeine_hx.Common.{ℕ, Bool, Option}
use caffeine_hx.Common.Int.{ℤ}
use caffeine_hx.Openssl.{Bignum, Bn, Value, int, bool, Heap, Act}
use caffeine_hx.Openssl.Arith.{
  bi_new, bi_zero, bi_one, bi_copy, bi_abs, bi_add_to, bi_sub_to, bi_mul_to, bi_sqr_to, bi_mod,
  bi_mod_inverse, bi_pow, bi_gcd, bi_mod_exp, bi_div_rem_to, bi_div, bi_signum, bi_cmp, bi_ucmp,
  bi_is_zero, bi_is_one, bi_is_odd,
}
use caffeine_hx.Openssl.Convert.{
  bi_to_hex, bi_to_decimal, bi_to_bin, bi_from_bin, bi_to_mpi, bi_from_mpi, bi_from_int,
  bi_from_int32, bi_to_int, bi_to_int32,
}
use caffeine_hx.Openssl.Bits.{
  bi_shl_to, bi_shr_to, bi_bitlength, bi_bytelength, bi_bits_set, bi_lowest_bit_set, bi_set_bit,
  bi_clear_bit, bi_flip_bit, bi_test_bit,
}
use caffeine_hx.Openssl.Bitwise.{bi_not}
use caffeine_hx.Openssl.Live.{IsLive}
use caffeine_hx.Openssl.Random.{bi_rand, bi_pseudo_rand, bi_generate_prime, bi_is_prime}

-- The primitives of no argument, of one, two and three
pub data Make : Type 0 where
  uninitialized zero_number one_number : Make

pub data OnOne : Type 0 where
  abs complement_of signum_of is_zero is_one is_odd to_hex to_decimal to_bin from_bin to_mpi
        from_mpi :
      OnOne
  to_int to_int32 bit_length byte_length bits_set lowest_bit : OnOne

pub data OnTwo : Type 0 where
  copy_to sqr_to modulo mod_inverse pow gcd div cmp ucmp set_bit clear_bit flip_bit test_bit : OnTwo

pub data OnThree : Type 0 where
  add_to sub_to mul_to mod_exp shl_to shr_to : OnThree

pub data Call : Type 0 where
  make : Make → Call
  one_of : OnOne → Value → Call
  two_of : OnTwo → Value → Value → Call
  three_of : OnThree → Value → Value → Value → Call
  div_rem_to : Value → Value → Value → Value → Call
  from_int : Value → ℤ → Call
  from_int32 : Value → ℤ → Call
  make_random make_pseudo_random :
      (Bignum → ℕ → ℤ → ℤ → Option Bignum) → Value → Value → Value → Call
  make_prime : (Bignum → ℕ → Bool → Option Bignum) → Value → Value → Call
  test_prime : (Bignum → ℤ → Bool → ℤ) → Value → ℤ → Bool → Call

-- All arguments are live.
abbrev pub AreLive : Heap → Call → Type 0
AreLive h (make o) = Unit {0}
AreLive h (one_of o a) = IsLive h a
AreLive h (two_of o a b) = IsLive h a × IsLive h b
AreLive h (three_of o a b r) = IsLive h a × IsLive h b × IsLive h r
AreLive h (div_rem_to a b dv rem) = IsLive h a × IsLive h b × IsLive h dv × IsLive h rem
AreLive h (from_int a n) = IsLive h a
AreLive h (from_int32 a n) = IsLive h a
AreLive h (make_random rand bits top bottom) = Unit {0}
AreLive h (make_pseudo_random rand bits top bottom) = Unit {0}
AreLive h (make_prime generate bits safe) = Unit {0}
AreLive h (test_prime fasttest a n trial) = IsLive h a

module _ (bn : Bn) where
  unfoldable pub run_call : Call → Act
  run_call (make uninitialized) h = bi_new bn h
  run_call (make zero_number) h = bi_zero bn h
  run_call (make one_number) h = bi_one bn h
  run_call (one_of abs a) h = bi_abs bn a h
  run_call (one_of complement_of a) h = bi_not bn a h
  run_call (one_of signum_of a) h = bi_signum bn a h
  run_call (one_of is_zero a) h = bi_is_zero bn a h
  run_call (one_of is_one a) h = bi_is_one bn a h
  run_call (one_of is_odd a) h = bi_is_odd bn a h
  run_call (one_of to_hex a) h = bi_to_hex bn a h
  run_call (one_of to_decimal a) h = bi_to_decimal bn a h
  run_call (one_of to_bin a) h = bi_to_bin bn a h
  run_call (one_of from_bin a) h = bi_from_bin bn a h
  run_call (one_of to_mpi a) h = bi_to_mpi bn a h
  run_call (one_of from_mpi a) h = bi_from_mpi bn a h
  run_call (one_of to_int a) h = bi_to_int bn a h
  run_call (one_of to_int32 a) h = bi_to_int32 bn a h
  run_call (one_of bit_length a) h = bi_bitlength bn a h
  run_call (one_of byte_length a) h = bi_bytelength bn a h
  run_call (one_of bits_set a) h = bi_bits_set bn a h
  run_call (one_of lowest_bit a) h = bi_lowest_bit_set bn a h
  run_call (two_of copy_to a b) h = bi_copy bn a b h
  run_call (two_of sqr_to a b) h = bi_sqr_to bn a b h
  run_call (two_of modulo a b) h = bi_mod bn a b h
  run_call (two_of mod_inverse a b) h = bi_mod_inverse bn a b h
  run_call (two_of pow a b) h = bi_pow bn a b h
  run_call (two_of gcd a b) h = bi_gcd bn a b h
  run_call (two_of div a b) h = bi_div bn a b h
  run_call (two_of cmp a b) h = bi_cmp bn a b h
  run_call (two_of ucmp a b) h = bi_ucmp bn a b h
  run_call (two_of set_bit a b) h = bi_set_bit bn a b h
  run_call (two_of clear_bit a b) h = bi_clear_bit bn a b h
  run_call (two_of flip_bit a b) h = bi_flip_bit bn a b h
  run_call (two_of test_bit a b) h = bi_test_bit bn a b h
  run_call (three_of add_to a b r) h = bi_add_to bn a b r h
  run_call (three_of sub_to a b r) h = bi_sub_to bn a b r h
  run_call (three_of mul_to a b r) h = bi_mul_to bn a b r h
  run_call (three_of mod_exp a b r) h = bi_mod_exp bn a b r h
  run_call (three_of shl_to a b r) h = bi_shl_to bn a b r h
  run_call (three_of shr_to a b r) h = bi_shr_to bn a b r h
  run_call (div_rem_to a b dv rem) h = bi_div_rem_to bn a b dv rem h
  run_call (from_int a n) h = bi_from_int bn a (int n) h
  run_call (from_int32 a n) h = bi_from_int32 bn a (int n) h
  run_call (make_random rand bits top bottom) h = bi_rand bn rand bits top bottom h
  run_call (make_pseudo_random rand bits top bottom) h = bi_pseudo_rand bn rand bits top bottom h
  run_call (make_prime generate bits safe) h = bi_generate_prime bn generate bits safe h
  run_call (test_prime fasttest a n trial) h = bi_is_prime bn fasttest a (int n) (bool trial) h
