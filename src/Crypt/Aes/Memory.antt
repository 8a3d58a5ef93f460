-- ===== src/Crypt/Aes/Memory.antt =====
-- What naes_encrypt and naes_decrypt of dll_src/crypt/src/aes_lua_neko.cpp do with memory.
use caffeine_hx.Common.{
  ℕ, ◌+◌, ◌*◌, ◌/◌, ◌%◌, ◌<◌, ◌≤◌, ◌≡◌, refl, Bool, Bool-cases, Option-cases, true, false, inl, inr,
  List, [], ◌⊎◌, Option, none, some, length, ltb, not, ◌==◌, if◌then◌else◌, arith,
}
use caffeine_hx.Common.Int.{ℤ, pos, negsuc}
use caffeine_hx.Crypt.Aes.{
  Mode, Rijndael, Answer, result, thrown, neko_error, aborted, undefined, encryption_failure,
  encrypt, decrypt, Arg, null, int, bool, string, key, other_value, mem_to_key, valid_bits,
  cipher_key, is_key_length, aes_generic, aes_prepare_pad_buffer, encrypted, encrypt_in,
  encrypt_checked, naes_encrypt, decrypted, decrypt_with, decrypt_checked, naes_decrypt, bits_of,
  on_strings,
}

-- The size that padEncrypt writes for an input that is not empty.
pub record IsFitting (a : Rijndael) : Type 0 where
  pub padded :
      (m : Mode) (k : a.Schedule) (input out : List ℕ)
      → 0 < length input
      → a.pad_encrypt m k input ≡ some out
      → length out ≡ 16 * (length input / 16 + 1)

-- padDecrypt writes no more than it reads.
pub record IsStripping (a : Rijndael) : Type 0 where
  pub stripped :
      (m : Mode) (k : a.Schedule) (input out : List ℕ)
      → a.pad_decrypt m k input ≡ some out
      → length out ≤ length input

-- The blocks that naes_encrypt does not free, by its answer.
abbrev pub encrypt_leak : Answer (List ℕ) → ℕ
encrypt_leak (result out) = 1
encrypt_leak (thrown encryption_failure) = 2
encrypt_leak _ = 0

abbrev pub is_defined : {A : Type 0} → Answer A → Bool
is_defined undefined = false
is_defined aborted = false
is_defined _ = true

either : {A : Type 0} (P : A → Type 0) (b : Bool) (x y : A) → P x → P y → P (if b then x else y)
either P true x y h k = h
either P false x y h k = k

on_strings_lem :
    (a : Rijndael) {R : Type 0} (P : R → Type 0) (other : R) (on_both : List ℕ → List ℕ → R)
    (pass msg : Arg a)
    → P other
    → ((password message : List ℕ) → P (on_both password message))
    → P (on_strings a other on_both pass msg)
on_strings_lem a P other on_both (string password) (string message) h k = k password message
on_strings_lem a P other on_both (string password) null h k = h
on_strings_lem a P other on_both (string password) (int z) h k = h
on_strings_lem a P other on_both (string password) (bool b) h k = h
on_strings_lem a P other on_both (string password) (key q) h k = h
on_strings_lem a P other on_both (string password) other_value h k = h
on_strings_lem a P other on_both null msg h k = h
on_strings_lem a P other on_both (int z) msg h k = h
on_strings_lem a P other on_both (bool b) msg h k = h
on_strings_lem a P other on_both (key q) msg h k = h
on_strings_lem a P other on_both other_value msg h k = h

module _ (a : Rijndael) where
  pub generic_encrypt :
      (fits : IsFitting a) (message password : List ℕ) (bits : ℕ) (m : Mode)
      → 0 < length message
      → is_key_length a bits ≡ true
      → (out : List ℕ) × ((aes_generic a message bits password m encrypt true ≡ some out)
          × ((length out ≤ 16 * (length message / 16 + 2)) × (length out % 16 ≡ 0)))
  unfolding aes_generic mem_to_key
  generic_encrypt fits message password bits m some_bytes valid =
      elim (Bool-cases (a.cipher_init m)) [
        | inr fails ↦ ([], (rw fails refl, (omega arith, refl)))
        | inl starts ↦
            let r = a.pad_encrypt m (a.key_setup_enc (cipher_key a password) bits) message in
            elim (Option-cases r) [
              | inr none_written ↦
                  ([], (rw (starts, valid, none_written) refl, (omega arith, refl)))
              | inl (out, h) ↦
                  let size =
                    fits.padded m (a.key_setup_enc (cipher_key a password) bits) message out
                      some_bytes h in
                  (out, (rw (starts, valid, h) refl, (omega (arith, size), omega (arith, size))))
            ]
      ]

  pub generic_decrypt :
      (strips : IsStripping a) (message password : List ℕ) (bits : ℕ) (m : Mode)
      → is_key_length a bits ≡ true
      → (out : List ℕ) × ((aes_generic a message bits password m decrypt true ≡ some out)
          × (length out ≤ length message))
  unfolding aes_generic mem_to_key
  generic_decrypt strips message password bits m valid = elim (Bool-cases (a.cipher_init m)) [
    | inr fails ↦ ([], (rw fails refl, omega arith))
    | inl starts ↦
        let r = a.pad_decrypt m (a.key_setup_dec (cipher_key a password) bits) message in
        elim (Option-cases r) [
          | inr none_written ↦ ([], (rw (starts, valid, none_written) refl, omega arith))
          | inl (out, h) ↦ (
            out,
            (
              rw (starts, valid, h) refl,
              strips.stripped m (a.key_setup_dec (cipher_key a password) bits) message out h,
            ),
          )
        ]
  ]

  -- Only the three key lengths come through.
  valid_bits_cases :
      (z : ℤ)
      → (valid_bits a z ≡ none)
        ⊎ ((n : ℕ) × ((valid_bits a z ≡ some n) × (is_key_length a n ≡ true)))
  valid_bits_cases (negsuc n) = inl refl
  valid_bits_cases (pos n) = elim (Bool-cases (is_key_length a n)) [
    | inl t ↦ inr (n, (rw t refl, t))
    | inr t ↦ inl (rw t refl)
  ]

module _ (a : Rijndael) (fits : IsFitting a) (malloc : ℕ → ℕ → Bool) where
  -- A defined answer, with the blocks that are not freed.
  abbrev Encrypts : Answer (List ℕ) × ℕ → Type 0
  Encrypts r = (is_defined r.0 ≡ true) × (r.1 ≡ encrypt_leak r.0)

  encrypted-Encrypts :
      (buf_len : ℕ) (out : List ℕ)
      → length out ≤ buf_len
      → length out % 16 ≡ 0
      → Encrypts (encrypted a malloc buf_len (some out))
  encrypted-Encrypts buf_len out fit whole =
      let fit' : ltb buf_len (length out) ≡ false = ground arith in
      let whole' : (length out % 16 == 0) ≡ true = ground arith in
      rw (fit', whole')
        (elim (Bool-cases (length out == 0)) [
          | inl e ↦ rw e (refl, refl)
          | inr e ↦ rw e (refl, refl)
        ])

  encrypt_in-Encrypts :
      (password message : List ℕ) (bits : ℕ) (m : Mode)
      → 0 < length message
      → is_key_length a bits ≡ true
      → Encrypts
          (encrypt_in a malloc password message bits m (some (16 * (length message / 16 + 2))))
  encrypt_in-Encrypts password message bits m some_bytes valid =
      let (out, (h, (fit, whole))) =
        generic_encrypt a fits message password bits m some_bytes valid in
      let blocks : (16 * (length message / 16 + 2) % 16 == 0) ≡ true = ground arith in
      rw (blocks, h)
        (either Encrypts (not (malloc 1 (16 * (length message / 16 + 2)))) _ _ (refl, refl)
          (encrypted-Encrypts (16 * (length message / 16 + 2)) out fit whole))

  prepared-Encrypts :
      (password message : List ℕ) (bits : ℕ) (m : Mode)
      → is_key_length a bits ≡ true
      → Encrypts
          (encrypt_in a malloc password message bits m (aes_prepare_pad_buffer a malloc message))
  unfolding aes_prepare_pad_buffer
  prepared-Encrypts password message bits m valid = elim (Bool-cases (length message == 0)) [
    | inl e ↦ rw e (refl, refl)
    | inr e ↦
        let some_bytes : 0 < length message = ground arith in
        elim (Bool-cases (malloc 0 (16 * (length message / 16 + 2)))) [
          | inl had ↦ rw (e, had) (encrypt_in-Encrypts password message bits m some_bytes valid)
          | inr not_had ↦ rw (e, not_had) (refl, refl)
        ]
  ]

  with_bits-Encrypts :
      (password message : List ℕ) (m : Mode) (z : Option ℤ)
      → Encrypts (encrypt_checked a malloc password message m z)
  with_bits-Encrypts password message m none = (refl, refl)
  with_bits-Encrypts password message m (some z) =
      either Encrypts (length password == 0) _ _ (refl, refl)
        (either Encrypts (length message == 0) _ _ (refl, refl)
          (elim (valid_bits_cases a z) [
            | inl h ↦ rw h (refl, refl)
            | inr (n, (h, valid)) ↦ rw h (prepared-Encrypts password message n m valid)
          ]))

  -- naes_encrypt of any arguments neither writes behind the end of a block, uses a key that was not set
  -- up nor fails an assertion, if padEncrypt, on an input that is not empty and where it writes, fills up
  -- the last block or adds one; of the blocks it allocates it leaves one where it gives a string, two where
  -- encryption fails, and else none.
  pub naes_encrypt-encrypt_leak :
      (pass msg key_len : Arg a) (m : Mode)
      → let r = naes_encrypt a malloc pass msg key_len m in
        (is_defined r.0 ≡ true) × (r.1 ≡ encrypt_leak r.0)
  unfolding naes_encrypt
  naes_encrypt-encrypt_leak pass msg key_len m =
      on_strings_lem a Encrypts (neko_error, 0)
        (λ password message. encrypt_checked a malloc password message m (bits_of a key_len)) pass
        msg (refl, refl)
        (λ password message. with_bits-Encrypts password message m (bits_of a key_len))

module _ (a : Rijndael) (strips : IsStripping a) (malloc : ℕ → ℕ → Bool) where
  -- A defined answer, with no block left.
  abbrev Decrypts : Answer (List ℕ) × ℕ → Type 0
  Decrypts r = (is_defined r.0 ≡ true) × (r.1 ≡ 0)

  decrypted-Decrypts :
      (size : ℕ) (out : List ℕ) → length out ≤ size → Decrypts (decrypted a malloc size (some out))
  decrypted-Decrypts size out fit =
      let fit' : ltb size (length out) ≡ false = ground arith in
      rw fit' (either Decrypts (length out == 0) _ _ (refl, refl) (refl, refl))

  decrypt_with-Decrypts :
      (password message : List ℕ) (bits : ℕ) (m : Mode)
      → is_key_length a bits ≡ true
      → Decrypts (decrypt_with a malloc password message m (some bits))
  decrypt_with-Decrypts password message bits m valid =
      let (out, (h, fit)) = generic_decrypt a strips message password bits m valid in
      rw h (
        either Decrypts (not (malloc 0 (length message))) _ _ (refl, refl)
          (decrypted-Decrypts (length message) out fit))

  with_bits-Decrypts :
      (password message : List ℕ) (m : Mode) (z : Option ℤ)
      → Decrypts (decrypt_checked a malloc password message m z)
  with_bits-Decrypts password message m none = (refl, refl)
  with_bits-Decrypts password message m (some z) =
      either Decrypts (length password == 0) _ _ (refl, refl)
        (either Decrypts (length message == 0) _ _ (refl, refl)
          (either Decrypts (not (length message % 16 == 0)) _ _ (refl, refl)
            (elim (valid_bits_cases a z) [
              | inl h ↦ rw h (refl, refl)
              | inr (n, (h, valid)) ↦ rw h (decrypt_with-Decrypts password message n m valid)
            ])))

  -- naes_decrypt of any arguments neither writes behind the end of a block nor uses a key that was not set
  -- up, if padDecrypt writes no more than it reads; it frees the block it allocates.
  pub naes_decrypt-frees :
      (pass msg key_len : Arg a) (m : Mode)
      → let r = naes_decrypt a malloc pass msg key_len m in (is_defined r.0 ≡ true) × (r.1 ≡ 0)
  unfolding naes_decrypt
  naes_decrypt-frees pass msg key_len m =
      on_strings_lem a Decrypts (neko_error, 0)
        (λ password message. decrypt_checked a malloc password message m (bits_of a key_len)) pass
        msg (refl, refl)
        (λ password message. with_bits-Decrypts password message m (bits_of a key_len))
