-- ===== src/Openssl.antt =====
-- Big integers of dll_src/openssl/src/bn_neko.cpp: numbers of OpenSSL and the values of scripts.
use caffeine_hx.Common.{ℕ, Bool, true, false, List, [], ◌∷◌, ◌++◌, Option, none, some, length, set}
use caffeine_hx.Common.Int.{ℤ}
use caffeine_hx.Common.Slots.{slot}
pub mod Arith
pub mod Convert
pub mod Bits
pub mod Bitwise
pub mod Counts
pub mod RoundTrip
pub mod Complement
pub mod Sizes
pub mod Des
pub mod Random
pub mod Live
pub mod Ops
pub mod Safe
mod Tests

-- `BIGNUM`, as the code reads it: `d` up to `top`, its lowest word first; how many words `d` has room for;
-- and whether `neg` is not 0.
pub record Bignum : Type 0 where
  pub words : List ℕ
  pub dmax : ℕ
  pub neg : Bool

-- The functions and macros of OpenSSL that the code calls, without the context that some take. Each takes
-- the number it writes to, as it was, first. `none` is a NULL pointer, or a failure that the code tests.
-- `new` is what BN_new gives, NULL where memory is out; contexts are had.
pub record Bn : Type 0 where
  pub new : Option Bignum
  pub zero_ex : Bignum
  pub one : Bignum
  pub copy : Bignum → Bignum → Bignum
  pub add : Bignum → Bignum → Bignum → Bignum
  pub sub : Bignum → Bignum → Bignum → Bignum
  pub mul : Bignum → Bignum → Bignum → Bignum
  pub remainder : Bignum → Bignum → Bignum → Bignum
  pub mod_inverse : Bignum → Bignum → Bignum → Bignum
  pub exp : Bignum → Bignum → Bignum → Bignum
  pub gcd : Bignum → Bignum → Bignum → Bignum
  pub sqr : Bignum → Bignum → Option Bignum
  pub div : Bignum → Bignum → Bignum → Bignum → Bignum × Bignum
  pub mod_exp : Bignum → Bignum → Bignum → Bignum → Bignum
  pub cmp : Bignum → Bignum → ℤ
  pub ucmp : Bignum → Bignum → ℤ
  pub is_one : Bignum → ℤ
  pub is_odd : Bignum → ℤ
  pub num_bits : Bignum → ℕ
  pub num_bytes : Bignum → ℕ
  pub is_bit_set : Bignum → ℤ → Bool
  pub set_bit : Bignum → ℤ → Bignum
  pub clear_bit : Bignum → ℤ → Bignum
  pub lshift : Bignum → Bignum → ℤ → Option Bignum
  pub rshift : Bignum → Bignum → ℤ → Option Bignum
  pub set_word : Bignum → ℕ → Bignum
  pub bn2hex : Bignum → Option (List ℕ)
  pub bn2dec : Bignum → Option (List ℕ)
  pub hex2bn : List ℕ → Option Bignum
  pub dec2bn : List ℕ → Option Bignum
  pub bn2bin : Bignum → List ℕ
  pub bn2mpi : Bignum → List ℕ
  pub bin2bn : List ℕ → Option Bignum
  pub mpi2bn : List ℕ → Option Bignum
  pub wexpand : Bignum → ℕ → Option Bignum
  pub fix_top : Bignum → Bignum

-- A big integer is a pointer to a BIGNUM, which may be NULL; two of them make an array.
pub data Value : Type 0 where
  null : Value
  int : ℤ → Value
  bool : Bool → Value
  string : List ℕ → Value
  big : Option ℕ → Value
  array_of_two : ℕ → ℕ → Value
  other_value : Value

pub data Message : Type 0 where
  sqr_error shift_error conversion_error decode_error random_error prime_error bits_below_zero :
      Message
  a_expand_error b_expand_error r_expand_error null_pointer invalid_op : Message

-- The BIGNUMs by number, `none` where freed.
abbrev pub Heap : Type 0
Heap = List (Option Bignum)

-- A value, an exception, or NULL for an argument of the wrong type; or a NULL pointer or a freed BIGNUM
-- is used, or an assertion fails.
pub data Answer : Type 0 where
  result : Value → Heap → Answer
  thrown : Message → Heap → Answer
  neko_error : Heap → Answer
  undefined : Answer
  aborted : Answer

abbrev pub Act : Type 0
Act = Heap → Answer

-- `val_check_kind(v, k_biginteger)`
abbrev pub with_kind : (Option ℕ → Act) → Value → Act
with_kind use_pointer (big p) h = use_pointer p h
with_kind use_pointer _ h = neko_error h

-- `val_check(v, int)` and `val_check(v, string)`
abbrev pub with_int : (ℤ → Act) → Value → Act
with_int use_int (int n) h = use_int n h
with_int use_int _ h = neko_error h

abbrev pub with_string : (List ℕ → Act) → Value → Act
with_string use_string (string s) h = use_string s h
with_string use_string _ h = neko_error h

-- The number that a pointer points to
abbrev pub on_number : (Bignum → Act) → Option Bignum → Act
on_number use_number none h = undefined
on_number use_number (some x) h = use_number x h

abbrev pub deref : (ℕ → Bignum → Act) → Option ℕ → Act
deref use_number none h = undefined
deref use_number (some i) h = on_number (use_number i) (slot h i) h

-- `bi_allocate(bi)` of a new BIGNUM
abbrev pub bi_allocate : Bignum → Act
bi_allocate x h = result (big (some (length h))) (h ++ some x ∷ [])

abbrev pub store : ℕ → Bignum → Heap → Heap
store i x h = set h i (some x)
