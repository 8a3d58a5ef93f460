-- ===== src/Crypt/Aes.antt =====
-- The AES binding dll_src/crypt/src/aes_lua_neko.cpp for Neko, and memToKey of rijndael-api-fst.cpp: keys,
-- single blocks, and encryption and decryption of strings with a password. A string of Neko is short
-- enough for its length to be an `int`.
use caffeine_hx.Common.{
  ℕ, zero, suc, ◌+◌, ◌-◌, ◌*◌, ◌/◌, ◌%◌, Bool, true, false, List, [], ◌∷◌, ◌++◌, Option, none, some,
  take, replicate, length, ltb, leb, not, ◌==◌, ◌||◌, if◌then◌else◌,
}
use caffeine_hx.Common.Int.{ℤ, pos, negsuc}
pub mod Buffer
pub mod Memory
pub mod RoundTrip
mod Tests
pub mod Key

pub data Mode : Type 0 where
  ecb cbc : Mode

pub data Direction : Type 0 where
  encrypt decrypt : Direction

-- What the binding calls of Rijndael: rijndaelKeySetupEnc and rijndaelKeySetupDec of the bytes of a
-- key and its bits, rijndaelEncrypt and rijndaelDecrypt of a block; cipherInit without an IV; and
-- padEncrypt, padDecrypt, blockEncrypt and blockDecrypt, the bytes that they write, as many as their
-- result says, or nothing where it is negative.
pub record Rijndael : Type 1 where
  pub Schedule : Type 0
  pub key_setup_enc : List ℕ → ℕ → Schedule
  pub key_setup_dec : List ℕ → ℕ → Schedule
  pub encrypt_bytes : Schedule → List ℕ → List ℕ
  pub decrypt_bytes : Schedule → List ℕ → List ℕ
  pub cipher_init : Mode → Bool
  pub pad_encrypt : Mode → Schedule → List ℕ → Option (List ℕ)
  pub pad_decrypt : Mode → Schedule → List ℕ → Option (List ℕ)
  pub block_encrypt : Mode → Schedule → List ℕ → Option (List ℕ)
  pub block_decrypt : Mode → Schedule → List ℕ → Option (List ℕ)

-- The exceptions.
pub data Message : Type 0 where
  key_is_null message_is_null invalid_key_length not_whole_blocks out_of_memory : Message
  encryption_failure decryption_failure : Message
  no_key_material block_size_incorrect not_an_encryption_key not_a_decryption_key : Message

-- A primitive gives a value, `null`, an exception, or NULL for an argument of the wrong type; an
-- assertion fails; or memory is misused: a key that was not set up is used, or bytes are written behind
-- the end of a block.
pub data Answer (A : Type 0) : Type 0 where
  result : A → Answer A
  null_value : Answer A
  thrown : Message → Answer A
  neko_error : Answer A
  aborted : Answer A
  undefined : Answer A

module _ (a : Rijndael) where
  -- `keyInstance`, without the second schedule `ek`, which the binding does not use
  pub record KeyInstance : Type 0 where
    pub direction : Direction
    pub key_len : ℕ
    pub rk : a.Schedule

  pub data Arg : Type 0 where
    null : Arg
    int : ℤ → Arg
    bool : Bool → Arg
    string : List ℕ → Arg
    key : KeyInstance → Arg
    other_value : Arg

  -- `cipherKey`: the first 32 bytes, filled up with zeros.
  unfoldable pub cipher_key : List ℕ → List ℕ
  cipher_key mem = take 32 mem ++ replicate (32 - length mem) 0

  abbrev pub key_setup : Direction → List ℕ → ℕ → a.Schedule
  key_setup encrypt bytes bits = a.key_setup_enc bytes bits
  key_setup decrypt bytes bits = a.key_setup_dec bytes bits

  abbrev pub is_key_length : ℕ → Bool
  is_key_length n = n == 128 || (n == 192 || n == 256)

  -- `memToKey(key, direction, keyLen, mem, mem_length)`: the key, or nothing where the key is left as
  -- it was.
  unfoldable pub mem_to_key : Direction → ℕ → List ℕ → Option KeyInstance
  unfolding cipher_key
  mem_to_key d bits mem =
      if is_key_length bits
      then some (record { direction = d; key_len = bits; rk = key_setup d (cipher_key mem) bits })
      else none

  -- `retval`, 0 for a negative one.
  abbrev pub or_zero : Option (List ℕ) → List ℕ
  or_zero none = []
  or_zero (some out) = out

  abbrev pub cipher : Direction → Bool → Mode → a.Schedule → List ℕ → Option (List ℕ)
  cipher encrypt true m k input = a.pad_encrypt m k input
  cipher encrypt false m k input = a.block_encrypt m k input
  cipher decrypt true m k input = a.pad_decrypt m k input
  cipher decrypt false m k input = a.block_decrypt m k input

  abbrev pub with_key : Mode → Direction → Bool → List ℕ → Option KeyInstance → Option (List ℕ)
  with_key m d padded input none = none
  with_key m d padded input (some k) = some (or_zero (cipher d padded m k.rk input))

  -- `aes_generic`, with no IV: the bytes written to `out`, as many as its result; nothing where the
  -- result of memToKey, which is not looked at, left the key undefined.
  unfoldable pub aes_generic : List ℕ → ℕ → List ℕ → Mode → Direction → Bool → Option (List ℕ)
  unfolding mem_to_key
  aes_generic input bits password m d padded =
      if not (a.cipher_init m)
      then some []
      else with_key m d padded input (mem_to_key d bits password)

  -- `key_len` may be null, for 128.
  abbrev pub bits_of : Arg → Option ℤ
  bits_of null = some (pos 128)
  bits_of (int n) = some n
  bits_of _ = none

  abbrev pub valid_bits : ℤ → Option ℕ
  valid_bits (pos n) = if is_key_length n then some n else none
  valid_bits (negsuc n) = none

  -- `val_check(pass, string)` and `val_check(msg, string)`
  abbrev pub on_strings : {R : Type 0} → R → (List ℕ → List ℕ → R) → Arg → Arg → R
  on_strings other on_both (string password) (string message) = on_both password message
  on_strings other on_both _ _ = other

  -- Whether malloc succeeds, for the number of the call and the size.
  module _ (malloc : ℕ → ℕ → Bool) where
    -- `aes_prepare_pad_buffer`: the size of the buffer.
    unfoldable pub aes_prepare_pad_buffer : List ℕ → Option ℕ
    aes_prepare_pad_buffer message =
        if length message == 0
        then none
        else (let buf_len = 16 * (length message / 16 + 2) in
            if malloc 0 buf_len then some buf_len else none)

    -- What naes_encrypt does behind aes_generic. Each primitive answers with the number of its blocks
    -- that are not freed.
    abbrev pub encrypted : ℕ → Option (List ℕ) → Answer (List ℕ) × ℕ
    encrypted buf_len none = (undefined, 2)
    encrypted buf_len (some out) =
        if ltb buf_len (length out)
        then (undefined, 2)
        else if not (length out % 16 == 0)
        then (aborted, 2)
        else if length out == 0
        then (thrown encryption_failure, 2)
        else (result out, 1)

    -- Behind aes_prepare_pad_buffer.
    abbrev pub encrypt_in : List ℕ → List ℕ → ℕ → Mode → Option ℕ → Answer (List ℕ) × ℕ
    encrypt_in password message bits m none = (null_value, 0)
    encrypt_in password message bits m (some buf_len) =
        if not (buf_len % 16 == 0)
        then (aborted, 1)
        else if not (malloc 1 buf_len)
        then (thrown out_of_memory, 0)
        else encrypted buf_len (aes_generic message bits password m encrypt true)

    abbrev pub encrypt_with : List ℕ → List ℕ → Mode → Option ℕ → Answer (List ℕ) × ℕ
    encrypt_with password message m none = (thrown invalid_key_length, 0)
    encrypt_with password message m (some bits) =
        encrypt_in password message bits m (aes_prepare_pad_buffer message)

    abbrev pub encrypt_checked : List ℕ → List ℕ → Mode → Option ℤ → Answer (List ℕ) × ℕ
    encrypt_checked password message m none = (neko_error, 0)
    encrypt_checked password message m (some bits) =
        if length password == 0
        then (thrown key_is_null, 0)
        else if length message == 0
        then (thrown message_is_null, 0)
        else encrypt_with password message m (valid_bits bits)

    -- `naes_encrypt(pass, msg, key_len, mode)`
    unfoldable pub naes_encrypt : Arg → Arg → Arg → Mode → Answer (List ℕ) × ℕ
    unfolding aes_generic aes_prepare_pad_buffer
    naes_encrypt pass msg key_len m =
        on_strings (neko_error, 0)
          (λ password message. encrypt_checked password message m (bits_of key_len)) pass msg

    -- Behind aes_generic in naes_decrypt; the block is as long as the message.
    abbrev pub decrypted : ℕ → Option (List ℕ) → Answer (List ℕ) × ℕ
    decrypted size none = (undefined, 1)
    decrypted size (some out) =
        if ltb size (length out)
        then (undefined, 1)
        else if length out == 0
        then (thrown decryption_failure, 0)
        else (result out, 0)

    abbrev pub decrypt_with : List ℕ → List ℕ → Mode → Option ℕ → Answer (List ℕ) × ℕ
    decrypt_with password message m none = (thrown invalid_key_length, 0)
    decrypt_with password message m (some bits) =
        if not (malloc 0 (length message))
        then (thrown out_of_memory, 0)
        else decrypted (length message) (aes_generic message bits password m decrypt true)

    abbrev pub decrypt_checked : List ℕ → List ℕ → Mode → Option ℤ → Answer (List ℕ) × ℕ
    decrypt_checked password message m none = (neko_error, 0)
    decrypt_checked password message m (some bits) =
        if length password == 0
        then (thrown key_is_null, 0)
        else if length message == 0
        then (thrown message_is_null, 0)
        else if not (length message % 16 == 0)
        then (thrown not_whole_blocks, 0)
        else decrypt_with password message m (valid_bits bits)

    -- `naes_decrypt(pass, msg, key_len, mode)`
    unfoldable pub naes_decrypt : Arg → Arg → Arg → Mode → Answer (List ℕ) × ℕ
    unfolding aes_generic
    naes_decrypt pass msg key_len m =
        on_strings (neko_error, 0)
          (λ password message. decrypt_checked password message m (bits_of key_len)) pass msg
