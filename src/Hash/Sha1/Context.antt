-- ===== src/Hash/Sha1/Context.antt =====
-- SHA1Init, SHA1Update, SHA1Final and SHA1 of dll_src/hash/src/sha1.c.
use caffeine_hx.Common.{
  ℕ, zero, suc, ◌+◌, ◌-◌, ◌*◌, ◌/◌, ◌%◌, ◌^◌, Bool, not, List, [], ◌∷◌, ◌++◌, length, take, drop,
  replicate, ltb, ◌==◌, if◌then◌else◌,
}
use caffeine_hx.Hash.Sha1.Transform.{Registers, word_mod, sha1_transform}

-- `SHA1_CTX`: `count` is the number of message bits, low word first.
pub record Context : Type 0 where
  pub state : Registers
  pub count0 : ℕ
  pub count1 : ℕ
  pub buffer : List ℕ
  pub le : Bool

-- The initialization constants.
abbrev pub initial : Registers
initial = record { v = 0x67452301; w = 0xEFCDAB89; x = 0x98BADCFE; y = 0x10325476; z = 0xC3D2E1F0 }

-- `memcpy(&buffer[j], data, n)` for the `n` bytes of `bytes`
abbrev pub copy_in : List ℕ → ℕ → List ℕ → List ℕ
copy_in buffer j bytes = take j buffer ++ (bytes ++ drop (j + length bytes) buffer)

-- `count[0] += len << 3` with its carry, and `count[1] += len >> 29`
unfoldable pub add_count : ℕ → Context → Context
add_count len c =
    let bits = (len * 8) % word_mod in
    let low = (c.count0 + bits) % word_mod in
    let carry = if ltb low bits then 1 else 0 in
    record c { count0 = low; count1 = (c.count1 + carry + len / 2 ^ 29) % word_mod }

-- Byte `k` of a word, the highest one first: `(word >> ((3-(k & 3)) * 8)) & 255`.
abbrev pub word_byte : ℕ → ℕ → ℕ
word_byte word k = (word / 2 ^ ((3 - k) * 8)) % 256

abbrev pub word_bytes : ℕ → List ℕ
word_bytes word = word_byte word 0 ∷ word_byte word 1 ∷ word_byte word 2 ∷ word_byte word 3 ∷ []

-- `finalcount`: the high word of the count, then the low one.
unfoldable pub final_count : Context → List ℕ
final_count c = word_bytes c.count1 ++ word_bytes c.count0

-- The twenty bytes of the digest.
unfoldable pub digest_bytes : Registers → List ℕ
digest_bytes r =
    word_bytes r.v ++ (word_bytes r.w ++ (word_bytes r.x ++ (word_bytes r.y ++ word_bytes r.z)))

module _ (machine_le : Bool) where
  -- `be_test()`: whether the last byte of a `long` that is 1 holds the 1.
  unfoldable pub be_test : Bool
  be_test = not machine_le

  -- `SHA1Init`; the buffer keeps what it held.
  unfoldable pub sha1_init : List ℕ → Context
  unfolding be_test
  sha1_init held = record {
    state = initial;
    count0 = 0;
    count1 = 0;
    buffer = held;
    le = not be_test;
  }

  -- `for ( ; i + 63 < len; i += 64) SHA1Transform(state, &data[i], le)`, on the bytes from `&data[i]`
  -- on: the state and the bytes left. Each round takes 64 bytes, so their number is fuel enough.
  unfoldable pub transform_data : ℕ → Bool → Registers → List ℕ → Registers × List ℕ
  transform_data zero le state rest = (state, rest)
  transform_data (suc fuel) le state rest =
      let more = transform_data fuel le (sha1_transform machine_le state rest le) (drop 64 rest) in
      if ltb 63 (length rest) then more else (state, rest)

  -- The block that is completed, those that follow in `data`, and the bytes left over.
  unfoldable pub fill : ℕ → List ℕ → Context → Context
  fill j bytes c =
      let full = copy_in c.buffer j (take (64 - j) bytes) in
      let first = sha1_transform machine_le c.state full c.le in
      let (state, rest) = transform_data (length bytes) c.le first (drop (64 - j) bytes) in
      record c { state = state; buffer = copy_in full 0 rest }

  -- `SHA1Update(context, data, len)`, `len` being the number of bytes of `data`.
  unfoldable pub sha1_update : Context → List ℕ → Context
  sha1_update c bytes =
      let j = (c.count0 / 8) % 64 in
      let c' = add_count (length bytes) c in
      if ltb 63 ((j + length bytes) % word_mod)
      then fill j bytes c'
      else record c' { buffer = copy_in c.buffer j bytes }

  -- `while ((count[0] & 504) != 448) SHA1Update(context, "\0", 1)`. The masked bits are bits 3 to 8.
  unfoldable pub pad_zeros : ℕ → Context → Context
  pad_zeros zero c = c
  pad_zeros (suc fuel) c =
      let rest = pad_zeros fuel (sha1_update c (0 ∷ [])) in
      if (c.count0 / 8) % 64 * 8 == 448 then c else rest

  -- The context behind SHA1Final: the fields are wiped, and the last SHA1Transform runs on them.
  unfoldable pub wiped : Bool → Context
  wiped le =
      let zeros : Registers = record { v = 0; w = 0; x = 0; y = 0; z = 0 } in
      record {
        state = sha1_transform machine_le zeros (replicate 64 0) le;
        count0 = 0;
        count1 = 0;
        buffer = replicate 64 0;
        le = le;
      }

  -- `SHA1Final(digest, context)`. At most 63 zeros are padded.
  unfoldable pub sha1_final : Context → List ℕ × Context
  sha1_final c =
      let padded = pad_zeros 64 (sha1_update c (0x80 ∷ [])) in
      let last = sha1_update padded (final_count c) in (digest_bytes last.state, wiped c.le)

  -- The loop of `SHA1`, also that of `sha1_string` and `sha_string` in sha1_lua_neko.c: SHA1Update on
  -- 16384 bytes at a time, then on what is left. The number of bytes is fuel enough.
  unfoldable pub update_chunks : ℕ → Context → List ℕ → Context
  update_chunks zero c bytes = c
  update_chunks (suc fuel) c [] = c
  update_chunks (suc fuel) c (b ∷ bytes) =
      update_chunks fuel (sha1_update c (take 16384 (b ∷ bytes))) (drop 16384 (b ∷ bytes))

  -- `SHA1(message, length, digest)`, with what the stack held in the context's buffer.
  unfoldable pub sha1 : List ℕ → List ℕ → List ℕ
  unfolding sha1_init update_chunks sha1_update add_count fill transform_data sha1_final final_count
      pad_zeros digest_bytes wiped
  sha1 held message = (sha1_final (update_chunks (length message) (sha1_init held) message)).0
