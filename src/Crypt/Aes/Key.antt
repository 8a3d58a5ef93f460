-- ===== src/Crypt/Aes/Key.antt =====
-- Keys and single blocks of dll_src/crypt/src/aes_lua_neko.cpp.
use caffeine_hx.Common.{
  ℕ, ◌≡◌, refl, ap, Bool, true, false, List, Option, none, some, length, ltb, not, ◌==◌,
  if◌then◌else◌, arith,
}
use caffeine_hx.Common.Int.{pos}
use caffeine_hx.Crypt.Aes.{
  Rijndael, Answer, result, thrown, neko_error, undefined, out_of_memory, invalid_key_length,
  no_key_material, block_size_incorrect, not_an_encryption_key, not_a_decryption_key, Direction,
  encrypt, decrypt, Arg, int, bool, string, key, other_value, KeyInstance, mem_to_key, valid_bits,
  cipher_key, is_key_length,
}

module _ (a : Rijndael) where
  abbrev pub direction_of : Bool → Direction
  direction_of true = encrypt
  direction_of false = decrypt

  abbrev pub key_or : Option (KeyInstance a) → Answer (Arg a) × ℕ
  key_or none = (undefined, 1)
  key_or (some k) = (result (key k), 1)

  abbrev pub create : Bool → List ℕ → Option ℕ → Answer (Arg a) × ℕ
  create for_encrypt material none = (thrown invalid_key_length, 1)
  create for_encrypt material (some bits) =
      if ltb (length material) 1
      then (thrown no_key_material, 1)
      else key_or (mem_to_key a (direction_of for_encrypt) bits material)

  -- `aes_create_key(forEncrypt, keyLen, keyMaterial)`, where `enough` says that malloc succeeds: the answer,
  -- and the number of blocks that are not freed. The length may not be null.
  unfoldable pub aes_create_key : Arg a → Arg a → Arg a → Bool → Answer (Arg a) × ℕ
  unfolding mem_to_key
  aes_create_key (bool for_encrypt) (int key_len) (string material) true =
      create for_encrypt material (valid_bits a key_len)
  aes_create_key (bool for_encrypt) (int key_len) (string material) false =
      (thrown out_of_memory, 0)
  aes_create_key _ _ _ enough = (neko_error, 0)

  -- `destroy_key`: the value loses its kind.
  unfoldable pub destroy_aes_key : Arg a → Arg a
  destroy_aes_key (key k) = other_value
  destroy_aes_key v = v

  abbrev pub encrypt_one : KeyInstance a → List ℕ → Direction → Answer (List ℕ)
  encrypt_one k block encrypt = result (a.encrypt_bytes k.rk block)
  encrypt_one k block decrypt = thrown not_an_encryption_key

  -- `aes_encrypt_block(nekoKey, sBlock)`
  unfoldable pub aes_encrypt_block : Arg a → Arg a → Answer (List ℕ)
  aes_encrypt_block (key k) (string block) =
      if not (length block == 16)
      then thrown block_size_incorrect
      else encrypt_one k block k.direction
  aes_encrypt_block _ _ = neko_error

  abbrev pub decrypt_one : KeyInstance a → List ℕ → Direction → Answer (List ℕ)
  decrypt_one k block decrypt = result (a.decrypt_bytes k.rk block)
  decrypt_one k block encrypt = thrown not_a_decryption_key

  -- `aes_decrypt_block(nekoKey, sBlock)`
  unfoldable pub aes_decrypt_block : Arg a → Arg a → Answer (List ℕ)
  aes_decrypt_block (key k) (string block) =
      if not (length block == 16)
      then thrown block_size_incorrect
      else decrypt_one k block k.direction
  aes_decrypt_block _ _ = neko_error

  -- With keys of one material and one valid length, one for each direction, where memory is had,
  -- aes_decrypt_block gives back a block of 16 bytes from what aes_encrypt_block made of it, if
  -- rijndaelEncrypt gives 16 bytes and rijndaelDecrypt undoes it for schedules of one key.
  pub decrypt_block-encrypt_block_aes :
      (bits : ℕ) (material block : List ℕ)
      → is_key_length a bits ≡ true
      → length block ≡ 16
      → ltb (length material) 1 ≡ false
      → ((k x : List ℕ) → length x ≡ 16 → length (a.encrypt_bytes (a.key_setup_enc k bits) x) ≡ 16)
      → ((k x : List ℕ)
          → length x ≡ 16
          → a.decrypt_bytes (a.key_setup_dec k bits) (a.encrypt_bytes (a.key_setup_enc k bits) x)
            ≡ x)
      → (e d : Arg a) × (c : List ℕ) × (aes_create_key
            (bool true)
            (int (pos bits))
            (string material)
            true
          ≡ (result e, 1))
        × (aes_create_key (bool false) (int (pos bits)) (string material) true ≡ (result d, 1))
        × (aes_encrypt_block e (string block) ≡ result c)
        × (aes_decrypt_block d (string c) ≡ result block)
  unfolding aes_create_key aes_encrypt_block aes_decrypt_block
  decrypt_block-encrypt_block_aes bits material block valid size long sixteen back =
      let k = cipher_key a material in
      let whole : (length block == 16) ≡ true = ground arith in
      let s16 = sixteen k block size in
      let whole' : (length (a.encrypt_bytes (a.key_setup_enc k bits) block) == 16) ≡ true =
        ground arith in
      (
        key (record { direction = encrypt; key_len = bits; rk = a.key_setup_enc k bits }),
        key (record { direction = decrypt; key_len = bits; rk = a.key_setup_dec k bits }),
        a.encrypt_bytes (a.key_setup_enc k bits) block,
        rw (valid, long, mem_to_key) (rw valid refl),
        rw (valid, long, mem_to_key) (rw valid refl),
        rw whole refl,
        rw whole' (ap result (back k block size)),
      )
