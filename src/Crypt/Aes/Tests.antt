-- ===== src/Crypt/Aes/Tests.antt =====
-- A cipher that only fills up blocks, and the theorems on the AES binding at concrete inputs.
use caffeine_hx.Common.{
  ℕ, suc, ◌+◌, ◌-◌, ◌*◌, ◌/◌, ◌%◌, ◌^◌, ◌≤◌, ◌≡◌, refl, ap, Bool, ◌∙◌, true, List, [], ◌∷◌, ◌++◌,
  some, get_or, drop, take, replicate, length, arith, length-append, length-replicate, length-drop,
  drop-length_append,
}
use caffeine_hx.Common.Int.{pos}
use caffeine_hx.Crypt.Aes.{
  ecb, cbc, Rijndael, result, int, string, null, cipher_key, naes_encrypt, naes_decrypt,
}
use caffeine_hx.Crypt.Aes.Buffer.{
  Source, encrypt_length, aes_prepare_encrypt_buffer, aes_decode_decrypt_buffer,
  decode_decrypt_buffer-encrypt_buffer,
}
use caffeine_hx.Crypt.Aes.Memory.{
  IsFitting, IsStripping, encrypt_leak, is_defined, naes_encrypt-encrypt_leak, naes_decrypt-frees,
}
use caffeine_hx.Crypt.Aes.RoundTrip.{IsCipher, naes_decrypt-naes_encrypt}

-- The filling stands in front, its first byte is its length.
abbrev fill_up : List ℕ → List ℕ
fill_up x = suc (15 - length x % 16) ∷ (replicate (15 - length x % 16) 0 ++ x)

abbrev strip : List ℕ → List ℕ
strip x = drop (get_or x 0 0) x

abbrev filling : Rijndael
filling = record {
  Schedule = List ℕ;
  key_setup_enc = λ k bits. k;
  key_setup_dec = λ k bits. k;
  encrypt_bytes = λ k x. x;
  decrypt_bytes = λ k x. x;
  cipher_init = λ m. true;
  pad_encrypt = λ m k x. some (fill_up x);
  pad_decrypt = λ m k x. some (strip x);
  block_encrypt = λ m k x. some x;
  block_decrypt = λ m k x. some x;
}

length-fill_up : (x : List ℕ) → length (fill_up x) ≡ 16 * (length x / 16 + 1)
length-fill_up x =
    ap suc (length-append (replicate (15 - length x % 16) 0) x)
    ∙ rw (length-replicate {A = ℕ} (15 - length x % 16) 0) (omega arith)

strip-fill_up : (x : List ℕ) → strip (fill_up x) ≡ x
strip-fill_up x =
    let q = 15 - length x % 16 in
    rw (length-replicate {A = ℕ} q 0) at (drop-length_append (replicate q 0) x)

some_equal : {x y : List ℕ} → some x ≡ some y → y ≡ x
some_equal h = cc

length-strip : (x : List ℕ) → length (strip x) ≤ length x
length-strip x = rw (length-drop (get_or x 0 0) x) (omega arith)

filling-IsFitting : IsFitting filling
filling-IsFitting = record {
  padded = λ m k input out some_bytes h. ap length (some_equal h) ∙ length-fill_up input;
}

filling-IsStripping : IsStripping filling
filling-IsStripping = record {
  stripped = λ m k input out h. rw (some_equal h) (length-strip input);
}

filling-IsCipher : IsCipher filling
filling-IsCipher = record {
  starts = λ m. refl;
  undone = λ m password input bits valid h. (fill_up input, (refl, ap some (strip-fill_up input)));
}

abbrev enough : ℕ → ℕ → Bool
enough i n = true

abbrev hello : List ℕ
hello = b'h' ∷ b'e' ∷ b'y' ∷ []

abbrev password : List ℕ
password = b'p' ∷ []

-- A zero byte more gives the same key.
abbrev longer_password : List ℕ
longer_password = b'p' ∷ 0 ∷ []

naes_decrypt-naes_encrypt_example :
    (out : List ℕ) × (naes_encrypt filling enough
        (string password)
        (string hello)
        (int (pos 256))
        cbc
      ≡ (result out, 1))
    × (naes_decrypt filling enough (string longer_password) (string out) (int (pos 256)) cbc
        ≡ (result hello, 0))
    × (length out ≡ 16)
unfolding cipher_key
naes_decrypt-naes_encrypt_example =
    naes_decrypt-naes_encrypt filling filling-IsCipher filling-IsFitting enough (λ i n. refl) hello
      password longer_password 256 cbc refl (omega arith) (omega arith) (omega arith) refl

naes_encrypt-encrypt_leak_example :
    let r = naes_encrypt filling enough (string password) (string hello) null ecb in
    (is_defined r.0 ≡ true) × (r.1 ≡ encrypt_leak r.0)
naes_encrypt-encrypt_leak_example =
    naes_encrypt-encrypt_leak filling filling-IsFitting enough (string password) (string hello) null
      ecb

naes_decrypt-frees_example :
    let r = naes_decrypt filling enough (string password) (string (fill_up hello)) null ecb in
    (is_defined r.0 ≡ true) × (r.1 ≡ 0)
naes_decrypt-frees_example =
    naes_decrypt-frees filling filling-IsStripping enough (string password) (string (fill_up hello))
      null ecb

abbrev sixteen : List ℕ
sixteen = replicate 16 7

abbrev source : Source
source = record { rand = λ i. i * 1000; rand_max = 2 ^ 31 - 1; malloc = λ n. some (replicate n 99) }

decode_decrypt_buffer-encrypt_buffer_example :
    (buffer : List ℕ) × ((aes_prepare_encrypt_buffer source hello ≡ some buffer)
      × ((aes_decode_decrypt_buffer buffer ≡ some (16, 3)) × (take 3 (drop 16 buffer) ≡ hello)))
unfolding encrypt_length
decode_decrypt_buffer-encrypt_buffer_example =
    decode_decrypt_buffer-encrypt_buffer source hello (replicate 32 99) (omega arith) (omega arith)
      refl refl

abbrev two_byte_record : List ℕ
two_byte_record = 9 ∷ 9 ∷ 0 ∷ 0 ∷ 0 ∷ 2 ∷ 9 ∷ 9 ∷ replicate 10 5
