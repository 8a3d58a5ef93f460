-- ===== src/Crypt/Aes/RoundTrip.antt =====
-- naes_decrypt of what naes_encrypt made (dll_src/crypt/src/aes_lua_neko.cpp).
use caffeine_hx.Common.{
  ℕ, ◌+◌, ◌*◌, ◌/◌, ◌%◌, ◌<◌, ◌≡◌, refl, Bool, true, false, List, some, length, ltb, ◌==◌, arith,
}
use caffeine_hx.Common.Int.{pos}
use caffeine_hx.Crypt.Aes.{
  Mode, Rijndael, result, encrypt, decrypt, int, string, mem_to_key, cipher_key, is_key_length,
  aes_generic, aes_prepare_pad_buffer, naes_encrypt, naes_decrypt,
}
use caffeine_hx.Crypt.Aes.Memory.{IsFitting}

-- Rijndael starts in each mode, and padDecrypt undoes padEncrypt of an input that is not empty for schedules
-- of one key of 32 bytes, in one of the three lengths.
pub record IsCipher (a : Rijndael) : Type 0 where
  pub starts : (m : Mode) → a.cipher_init m ≡ true
  pub undone :
      (m : Mode) (password input : List ℕ) (bits : ℕ)
      → is_key_length a bits ≡ true
      → 0 < length input
      → (out : List ℕ) × ((a.pad_encrypt m (a.key_setup_enc (cipher_key a password) bits) input
            ≡ some out)
          × (a.pad_decrypt m (a.key_setup_dec (cipher_key a password) bits) out ≡ some input))

prepared-size :
    (a : Rijndael) (malloc : ℕ → ℕ → Bool) (message : List ℕ)
    → (length message == 0) ≡ false
    → malloc 0 (16 * (length message / 16 + 2)) ≡ true
    → aes_prepare_pad_buffer a malloc message ≡ some (16 * (length message / 16 + 2))
unfolding aes_prepare_pad_buffer
prepared-size a malloc message h k = rw (h, k) refl

module _ (a : Rijndael) (c : IsCipher a) where
  generic_encrypt-out :
      (input out password : List ℕ) (bits : ℕ) (m : Mode)
      → is_key_length a bits ≡ true
      → a.pad_encrypt m (a.key_setup_enc (cipher_key a password) bits) input ≡ some out
      → aes_generic a input bits password m encrypt true ≡ some out
  unfolding aes_generic mem_to_key
  generic_encrypt-out input out password bits m valid h = rw (c.starts m, valid, h) refl

  generic_decrypt-out :
      (input out password : List ℕ) (bits : ℕ) (m : Mode)
      → is_key_length a bits ≡ true
      → a.pad_decrypt m (a.key_setup_dec (cipher_key a password) bits) input ≡ some out
      → aes_generic a input bits password m decrypt true ≡ some out
  unfolding aes_generic mem_to_key
  generic_decrypt-out input out password bits m valid h = rw (c.starts m, valid, h) refl

module _ (a : Rijndael) (c : IsCipher a) (fits : IsFitting a) (malloc : ℕ → ℕ → Bool)
    (had : (i n : ℕ) → malloc i n ≡ true) where
  -- A message that is not empty, encrypted with a password and a key length of 128, 192 or 256, is had
  -- back with any password that gives the same 32 bytes of key, where memory is had, the cipher starts,
  -- padEncrypt fills up the last block or adds one, and padDecrypt undoes it: the encryption is whole
  -- blocks, one to sixteen bytes longer than the message.
  pub naes_decrypt-naes_encrypt :
      (message password password' : List ℕ) (bits : ℕ) (m : Mode)
      → is_key_length a bits ≡ true
      → 0 < length message
      → 0 < length password
      → 0 < length password'
      → cipher_key a password ≡ cipher_key a password'
      → (out : List ℕ) × (naes_encrypt a malloc
            (string password)
            (string message)
            (int (pos bits))
            m
          ≡ (result out, 1))
        × (naes_decrypt a malloc (string password') (string out) (int (pos bits)) m
            ≡ (result message, 0))
        × (length out ≡ 16 * (length message / 16 + 1))
  unfolding naes_encrypt naes_decrypt
  naes_decrypt-naes_encrypt message password password' bits m valid some_bytes p p' same =
      let n = length message in
      let (out, (there, back)) = c.undone m password message bits valid some_bytes in
      let size =
        fits.padded m (a.key_setup_enc (cipher_key a password) bits) message out some_bytes there in
      let p0 : (length password == 0) ≡ false = ground arith in
      let p0' : (length password' == 0) ≡ false = ground arith in
      let n0 : (n == 0) ≡ false = ground arith in
      let whole : (16 * (n / 16 + 2) % 16 == 0) ≡ true = ground arith in
      let fit : ltb (16 * (n / 16 + 2)) (length out) ≡ false = ground (arith, size) in
      let out_whole : (length out % 16 == 0) ≡ true = ground (arith, size) in
      let out0 : (length out == 0) ≡ false = ground (arith, size) in
      let fit' : ltb (length out) n ≡ false = ground (arith, size) in
      let buffer : aes_prepare_pad_buffer a malloc message ≡ some (16 * (n / 16 + 2)) =
        prepared-size a malloc message n0 (had 0 (16 * (n / 16 + 2))) in
      let up = generic_encrypt-out a c message out password bits m valid there in
      let down = generic_decrypt-out a c out message password' bits m valid (rw (← same) back) in
      (
        out,
        rw (p0, n0, valid, buffer, whole, had 1, up, fit, out_whole, out0) refl,
        rw (p0', out0, out_whole, valid, had 0, down, fit', n0) refl,
        size,
      )
