-- ===== src/Openssl/Convert.antt =====
-- The conversions of dll_src/openssl/src/bn_neko.cpp.
use caffeine_hx.Common.{
  ℕ, suc, ◌-◌, ◌/◌, ◌%◌, ◌^◌, Bool, true, false, List, [], ◌∷◌, ◌++◌, Option, none, some, length,
  drop, leb, ltb, ◌==◌, if◌then◌else◌,
}
use caffeine_hx.Common.Int.{ℤ, pos, negsuc}
use caffeine_hx.Openssl.{
  Bignum, Bn, Value, int, string, big, Message, conversion_error, decode_error, result, thrown,
  undefined, Act, with_kind, with_string, on_number, deref, bi_allocate, store,
}

-- The bytes of a C string, up to its NUL
abbrev pub c_string : List ℕ → List ℕ
c_string [] = []
c_string (c ∷ cs) = let rest = c_string cs in if c == 0 then [] else c ∷ rest

-- `bi_dec_string(v)`, and the "0" for no digit or a NULL
abbrev pub strip_zeros : List ℕ → List ℕ
strip_zeros [] = []
strip_zeros (c ∷ cs) = let rest = strip_zeros cs in if c == 48 then rest else c ∷ cs

abbrev pub zero_or : List ℕ → List ℕ
zero_or [] = 48 ∷ []
zero_or (c ∷ cs) = c ∷ cs

unfoldable pub bi_dec_string : Option (List ℕ) → List ℕ
bi_dec_string none = 48 ∷ []
bi_dec_string (some v) = zero_or (strip_zeros v)

-- The four bytes of a length, the highest first
abbrev pub length_bytes : ℕ → List ℕ
length_bytes n = n / 2 ^ 24 % 256 ∷ n / 2 ^ 16 % 256 ∷ n / 2 ^ 8 % 256 ∷ n % 256 ∷ []

-- `(unsigned long)abs(i)`; abs of the least int is that int, as machines have it.
abbrev pub abs_word : ℤ → ℕ
abs_word (pos n) = n
abs_word (negsuc n) = if n == 2 ^ 31 - 1 then 2 ^ 64 - 2 ^ 31 else suc n

abbrev pub set_neg : ℤ → Bignum → Bignum
set_neg (pos n) x = x
set_neg (negsuc n) x = record x { neg = true }

-- `(unsigned int)a->d[0]`, with the sign taken in
abbrev pub low_word : ℕ → Bool → ℕ
low_word d false = d % 2 ^ 32
low_word d true = (2 ^ 32 - d % 2 ^ 32) % 2 ^ 32

-- `(int)n` of an unsigned int
abbrev pub signed : ℕ → ℤ
signed n = if ltb n (2 ^ 31) then pos n else negsuc (2 ^ 32 - n - 1)

module _ (bn : Bn) where
  -- OPENSSL_free of a NULL pointer does nothing.
  unfoldable pub bi_to_hex : Value → Act
  unfolding bi_dec_string
  bi_to_hex a h = with_kind (deref (λ i x h. result (string (bi_dec_string (bn.bn2hex x))) h)) a h

  unfoldable pub bi_to_decimal : Value → Act
  unfolding bi_dec_string
  bi_to_decimal a h =
      with_kind (deref (λ i x h. result (string (bi_dec_string (bn.bn2dec x))) h)) a h

  -- A big integer that is NULL where the string has no digits
  abbrev pub allocate_or_null : Option Bignum → Act
  allocate_or_null none h = result (big none) h
  allocate_or_null (some x) h = bi_allocate x h

  unfoldable pub bi_from_hex : Value → Act
  bi_from_hex s h = with_string (λ s. allocate_or_null (bn.hex2bn (c_string s))) s h

  unfoldable pub bi_from_decimal : Value → Act
  bi_from_decimal s h = with_string (λ s. allocate_or_null (bn.dec2bn (c_string s))) s h

  unfoldable pub bi_to_bin : Value → Act
  bi_to_bin a h = with_kind (deref (λ i x h. result (string (bn.bn2bin x)) h)) a h

  abbrev pub allocate_or : Message → Option Bignum → Act
  allocate_or m none h = thrown m h
  allocate_or m (some x) h = bi_allocate x h

  abbrev pub from_bytes : (List ℕ → Option Bignum) → List ℕ → Act
  from_bytes decode [] h = on_number (λ z. bi_allocate bn.zero_ex) bn.new h
  from_bytes decode (b ∷ bs) h = allocate_or decode_error (decode (b ∷ bs)) h

  unfoldable pub bi_from_bin : Value → Act
  bi_from_bin s h = with_string (from_bytes bn.bin2bn) s h

  abbrev pub without_length : List ℕ → Act
  without_length buffer h =
      if leb (length buffer) 4 then thrown conversion_error h else result (string (drop 4 buffer)) h

  -- The block is large enough, and malloc gives it.
  unfoldable pub bi_to_mpi : Value → Act
  bi_to_mpi a h = with_kind (deref (λ i x. without_length (bn.bn2mpi x))) a h

  unfoldable pub bi_from_mpi : Value → Act
  bi_from_mpi s h =
      with_string (from_bytes (λ bytes. bn.mpi2bn (length_bytes (length bytes) ++ bytes))) s h

  -- `val_int(I)`, of a value that is not checked
  abbrev pub unchecked_int : (ℤ → Act) → Value → Act
  unchecked_int use_int (int n) h = use_int n h
  unchecked_int use_int _ h = undefined

  -- A null is refused before it would be tested for.
  unfoldable pub bi_from_int : Value → Value → Act
  bi_from_int a i h =
      with_kind
        (λ a.
          deref
            (λ k x.
              unchecked_int
                (λ n h. result (big (some k)) (store k (set_neg n (bn.set_word x (abs_word n))) h))
                i)
            a)
        a h

  unfoldable pub bi_from_int32 : Value → Value → Act
  unfolding bi_from_int
  bi_from_int32 a i h = bi_from_int a i h

  abbrev pub to_int31 : Bignum → List ℕ → ℤ
  to_int31 x [] = pos 0
  to_int31 x (d ∷ ds) = pos (low_word d x.neg % 2 ^ 31)

  unfoldable pub bi_to_int : Value → Act
  bi_to_int a h = with_kind (deref (λ i x h. result (int (to_int31 x x.words)) h)) a h

  abbrev pub to_int32 : Bignum → List ℕ → ℤ
  to_int32 x [] = pos 0
  to_int32 x (d ∷ ds) = signed (low_word d x.neg)

  unfoldable pub bi_to_int32 : Value → Act
  bi_to_int32 a h = with_kind (deref (λ i x h. result (int (to_int32 x x.words)) h)) a h
