-- ===== src/Crypt/Aes/Buffer.antt =====
-- aes_prepare_encrypt_buffer and aes_decode_decrypt_buffer of dll_src/crypt/src/aes_lua_neko.cpp: a
-- message behind a block that holds its length, with random bytes around it.
use caffeine_hx.Common.{
  write_at, length-write_at, ℕ, zero, suc, ◌||◌, ◌+◌, ◌-◌, ◌*◌, ◌/◌, ◌%◌, ◌^◌, ◌≤◌, ◌<◌, ◌≡◌, refl,
  ◌∙◌, ap, true, false, List, [], ◌∷◌, ◌++◌, Option, none, some, get_or, take, drop, length, ltb,
  not, ◌==◌, if◌then◌else◌, arith, length-take, take-length_append, take-append_le, take-take_le,
}

-- `*buflen`
unfoldable pub encrypt_length : ℕ → ℕ
encrypt_length n = 16 + 16 * (n / 16) + (if n % 16 == 0 then 0 else 16)

-- What a call takes from outside: the values of rand() in order, RAND_MAX, and the block that malloc
-- gives for a size, with the bytes in it.
pub record Source : Type 0 where
  pub rand : ℕ → ℕ
  pub rand_max : ℕ
  pub malloc : ℕ → Option (List ℕ)

-- `rand()/(int)(((unsigned)RAND_MAX + 1) / 253)`, as a byte
abbrev pub random_byte : Source → ℕ → ℕ
random_byte s i = (s.rand i / ((s.rand_max + 1) / 253)) % 256

abbrev pub random_bytes : Source → ℕ → ℕ → List ℕ
random_bytes s i zero = []
random_bytes s i (suc n) = random_byte s i ∷ random_bytes s (i + 1) n

abbrev pub length_header : Source → ℕ → List ℕ
length_header s n =
    random_byte s 0
    ∷ random_byte s 1
    ∷ n / 2 ^ 24 % 256
    ∷ n / 2 ^ 16 % 256
    ∷ n / 2 ^ 8 % 256
    ∷ n % 256
    ∷ random_byte s 0
    ∷ random_byte s 1
    ∷ random_bytes s 2 8

-- The writes, in their order, to the block of malloc.
unfoldable pub filled : Source → List ℕ → List ℕ → List ℕ
filled s message buf =
    let n = length message in
    write_at 16 message
      (write_at (encrypt_length n - 16) (random_bytes s 10 16) (write_at 0 (length_header s n) buf))

abbrev in_block : (List ℕ → List ℕ) → Option (List ℕ) → Option (List ℕ)
in_block write none = none
in_block write (some buf) = some (write buf)

-- `aes_prepare_encrypt_buffer(message, msg_len, &buflen)`: the buffer.
unfoldable pub aes_prepare_encrypt_buffer : Source → List ℕ → Option (List ℕ)
aes_prepare_encrypt_buffer s message =
    in_block (filled s message) (s.malloc (encrypt_length (length message)))

abbrev byte_at : List ℕ → ℕ → ℕ
byte_at buf i = get_or buf i 0

-- `*rec_len`; the four parts have no bit in common.
abbrev pub record_length : List ℕ → ℕ
record_length buf =
    byte_at buf 2 * 2 ^ 24 + byte_at buf 3 * 2 ^ 16 + byte_at buf 4 * 2 ^ 8 + byte_at buf 5

-- `aes_decode_decrypt_buffer(buf, buf_len, &rec_len)`: where the record starts, and its length.
unfoldable pub aes_decode_decrypt_buffer : List ℕ → Option (ℕ × ℕ)
aes_decode_decrypt_buffer buf =
    if ltb (length buf) 16
    then none
    else if not (byte_at buf 0 == byte_at buf 6) || not (byte_at buf 1 == byte_at buf 7)
    then none
    else if ltb (length buf - 16) (record_length buf)
    then none
    else some (16, record_length buf)

-- The asserted room behind the first block.
encrypt_length-ge : (n : ℕ) → n + 16 ≤ encrypt_length n
unfolding encrypt_length
encrypt_length-ge n = ground arith

encrypt_length-room : (n : ℕ) → 0 < n → 32 ≤ encrypt_length n
unfolding encrypt_length
encrypt_length-room n h = ground arith

-- A block at the start, bytes behind it and other bytes further on: the start and the bytes stay.
writes-layout :
    (start tail bytes buf : List ℕ) (off : ℕ)
    → length start ≡ 16
    → 16 ≤ off
    → off + length tail ≤ length buf
    → 16 + length bytes ≤ length buf
    → (rest : List ℕ) × ((write_at 16 bytes (write_at off tail (write_at 0 start buf))
          ≡ start ++ (bytes ++ rest))
        × (length (write_at 16 bytes (write_at off tail (write_at 0 start buf))) ≡ length buf))
writes-layout start tail bytes buf off h behind l m =
    let b1 = write_at 0 start buf in
    let l1 : length b1 ≡ length buf = length-write_at 0 start buf (omega arith) in
    let b2 = write_at off tail b1 in
    let l2 : length b2 ≡ length b1 = length-write_at off tail b1 (omega (arith, l1)) in
    let kept : 16 ≤ length (take off b1) = rw (length-take off b1) (omega (arith, l1)) in
    let first : take 16 b2 ≡ start =
      take-append_le 16 (take off b1) (tail ++ drop (off + length tail) b1) kept
      ∙ take-take_le 16 off b1 behind
      ∙ rw (← h) (take-length_append start (drop (0 + length start) buf)) in
    (
      drop (16 + length bytes) b2,
      (
        ap (λ t. t ++ (bytes ++ drop (16 + length bytes) b2)) first,
        length-write_at 16 bytes b2 (omega (arith, l1, l2)) ∙ l2 ∙ l1,
      ),
    )

module _ (s : Source) (message buf : List ℕ) (some_bytes : 0 < length message)
    (allocated : length buf ≡ encrypt_length (length message)) where
  filled-layout :
      (rest : List ℕ) × ((filled s message buf
          ≡ length_header s (length message) ++ (message ++ rest))
        × (length (filled s message buf) ≡ length buf))
  unfolding filled
  filled-layout =
      let n = length message in
      let more = encrypt_length-room n some_bytes in
      let room = encrypt_length-ge n in
      writes-layout (length_header s n) (random_bytes s 10 16) message buf (encrypt_length n - 16)
        refl (omega arith) (omega (arith, allocated)) (omega (arith, allocated))

bytes_of_length :
    (n : ℕ)
    → n < 2 ^ 32
    → n / 2 ^ 24 % 256 * 2 ^ 24 + n / 2 ^ 16 % 256 * 2 ^ 16 + n / 2 ^ 8 % 256 * 2 ^ 8 + n % 256 ≡ n
bytes_of_length n h = omega arith

decode_header :
    (r r' a b c d n : ℕ) (buf rest : List ℕ)
    → buf ≡ r ∷ r' ∷ a ∷ b ∷ c ∷ d ∷ r ∷ r' ∷ rest
    → a * 2 ^ 24 + b * 2 ^ 16 + c * 2 ^ 8 + d ≡ n
    → n + 16 ≤ length buf
    → aes_decode_decrypt_buffer buf ≡ some (16, n)
unfolding aes_decode_decrypt_buffer
decode_header r r' a b c d n buf rest h l within =
    let long : ltb (length buf) 16 ≡ false = ground arith in
    let again : (r == r) ≡ true = ground arith in
    let again' : (r' == r') ≡ true = ground arith in
    let fits : ltb (length buf - 16) n ≡ false = ground arith in
    let number : record_length buf ≡ n = rw h l in
    let echo : (byte_at buf 0 == byte_at buf 6) ≡ true = rw h again in
    let echo' : (byte_at buf 1 == byte_at buf 7) ≡ true = rw h again' in
    rw (long, echo, echo', number, fits) refl

-- What aes_prepare_encrypt_buffer makes of a message that is not empty and has fewer than 2 ^ 32 bytes,
-- where malloc gives a block of the size asked, decodes to the message, whatever rand gives.
pub decode_decrypt_buffer-encrypt_buffer :
    (s : Source) (message buf : List ℕ)
    → 0 < length message
    → length message < 2 ^ 32
    → s.malloc (encrypt_length (length message)) ≡ some buf
    → length buf ≡ encrypt_length (length message)
    → (buffer : List ℕ) × ((aes_prepare_encrypt_buffer s message ≡ some buffer)
        × ((aes_decode_decrypt_buffer buffer ≡ some (16, length message))
            × (take (length message) (drop 16 buffer) ≡ message)))
unfolding aes_prepare_encrypt_buffer aes_decode_decrypt_buffer
decode_decrypt_buffer-encrypt_buffer s message buf some_bytes small had allocated =
    let (rest, (layout, size)) = filled-layout s message buf some_bytes allocated in
    let n = length message in
    let room = encrypt_length-ge n in
    let decoded : aes_decode_decrypt_buffer (filled s message buf) ≡ some (16, n) =
      decode_header (random_byte s 0) (random_byte s 1) (n / 2 ^ 24 % 256) (n / 2 ^ 16 % 256)
        (n / 2 ^ 8 % 256) (n % 256) n (filled s message buf)
        (random_bytes s 2 8 ++ (message ++ rest)) layout (bytes_of_length n small)
        (omega (arith, size, allocated, room)) in
    (
      filled s message buf,
      (
        ap (in_block (filled s message)) had,
        (decoded, rw layout (take-length_append message rest)),
      ),
    )

-- A record that is decoded ends within the buffer.
pub decode_decrypt_buffer-le :
    (buf : List ℕ) (off n : ℕ)
    → aes_decode_decrypt_buffer buf ≡ some (off, n)
    → off + n ≤ length buf
unfolding aes_decode_decrypt_buffer
decode_decrypt_buffer-le buf off n h = ground arith
