-- ===== src/Hash/Tests.antt =====
-- Digests of known messages, and the theorems at concrete inputs.
use caffeine_hx.Common.{
  true, false, not, List, [], ◌∷◌, ◌++◌, ◌≡◌, refl, ℕ, ◌+◌, ◌≤◌, ◌^◌, replicate, length,
  length-replicate, some, take, map, arith,
}
use caffeine_hx.Common.Int.{to_uint32, pos}
use caffeine_hx.Hash.Algorithm.{Algorithm, Law}
use caffeine_hx.Hash.Container.{Sha2, int, result, ShaContainer, text1, sha_string}
use caffeine_hx.Hash.Container.Session.{Laws, digest_by, Holds, sha_string-Holds}
use caffeine_hx.Hash.Value.{pointer, null, object, array, Heap, nsha1}
use caffeine_hx.Hash.Value.Ends.{nsha1-ends}
use caffeine_hx.Hash.Container.Life.{session, session-digest}
use caffeine_hx.Hash.Sha1.Context.{
  Context, initial, be_test, sha1_init, sha1_update, sha1_final, sha1,
}
use caffeine_hx.Hash.Sha1.Digest.{
  digest, padded, updates, joined, sha1_final-digest, updates-digest, sha1-digest,
}
use caffeine_hx.Hash.Sha1.Transform.{sha1_transform, add_registers, load}
use caffeine_hx.Hash.Sha1.Schedule.{compress, schedule, read_word, sha1_transform-schedule}
use caffeine_hx.Hash.Sha1.Update.{Represents, initial-Represents, sha1_update-Represents}

abbrev abc : List ℕ
abc = b'a' ∷ b'b' ∷ b'c' ∷ []

abbrev abc_digest : List ℕ
abc_digest =
    0xa9 ∷ 0x99 ∷ 0x3e ∷ 0x36 ∷ 0x47 ∷ 0x06 ∷ 0x81 ∷ 0x6a ∷ 0xba ∷ 0x3e ∷ 0x25 ∷ 0x71 ∷ 0x78 ∷ 0x50
    ∷ 0xc2 ∷ 0x6c ∷ 0x9c ∷ 0xd0 ∷ 0xd8 ∷ 0x9d ∷ []

abbrev held : List ℕ
held = replicate 64 7

-- The first test vector of the file's head, on machines of both byte orders.
sha1-abc_le : sha1 true held abc ≡ abc_digest
unfolding sha1 sha1_transform
sha1-abc_le = refl

sha1-abc_be : sha1 false held abc ≡ abc_digest
unfolding sha1 sha1_transform
sha1-abc_be = refl

-- A context of a little-endian machine behind SHA1Init.
abbrev fresh : Context
fresh = record { state = initial; count0 = 0; count1 = 0; buffer = held; le = true }

fresh-Represents : Represents true true [] fresh
fresh-Represents = initial-Represents true true held refl

sha1_update-Represents_example : Represents true true ([] ++ abc) (sha1_update true fresh abc)
sha1_update-Represents_example =
    sha1_update-Represents true true [] abc fresh fresh-Represents (omega arith)

abbrev parts : List (List ℕ)
parts = abc ∷ [] ∷ abc ∷ []

updates-digest_example :
    (sha1_final true (updates true (sha1_init true held) parts)).0
    ≡ digest true (not (be_test true)) (joined parts)
unfolding caffeine_hx.Hash.Sha1.Digest.IsShort
updates-digest_example =
    updates-digest true held parts refl (omega arith, (omega arith, (omega arith, tt)))

sha1-digest_example : sha1 true held abc ≡ digest true (not (be_test true)) abc
sha1-digest_example = sha1-digest true held abc refl

-- An algorithm whose digest is the message's first bytes.
abbrev plain : ℕ → Algorithm
plain n = record {
  Ctx = List ℕ;
  size = n;
  init = λ raw. [];
  update = λ c bytes. c ++ bytes;
  final = λ c. (take n c, c);
}

plain_final : (n : ℕ) (m c : List ℕ) → m ≡ c → take n c ≡ take n m
plain_final n m c e = rw e refl

plain_update : (m bytes c : List ℕ) → m ≡ c → length bytes + 64 ≤ 2 ^ 32 → m ++ bytes ≡ c ++ bytes
plain_update m bytes c e l = rw e refl

abbrev plain_law : (n : ℕ) → Law (plain n)
plain_law n = record {
  Stands = λ m c. m ≡ c;
  digest_of = take n;
  init_lem = λ raw l. refl;
  update_lem = plain_update;
  final_lem = plain_final n;
}

abbrev four : Sha2
four = record { sha224 = plain 28; sha256 = plain 32; sha384 = plain 48; sha512 = plain 64 }

abbrev four_laws : Laws four
four_laws = record {
  law224 = plain_law 28;
  law256 = plain_law 32;
  law384 = plain_law 48;
  law512 = plain_law 64;
}

session-digest_example :
    session true four (int (pos 1)) (λ n. some (replicate n 7)) parts
    ≡ result (digest_by true four four_laws (to_uint32 (pos 1)) (joined parts))
unfolding caffeine_hx.Hash.Sha1.Digest.IsShort
session-digest_example =
    session-digest true four four_laws (pos 1) (λ n. some (replicate n 7)) parts refl
      (λ n. (replicate n 7, refl, length-replicate n 7))
      (omega arith, (omega arith, (omega arith, tt)))

abbrev fresh_container : ShaContainer true four
fresh_container = record { tag = 1; con = text1 fresh }

fresh_container-Holds : Holds true four four_laws [] fresh_container
unfolding be_test
fresh_container-Holds = (refl, fresh-Represents)

sha_string-Holds_example :
    (sc : ShaContainer true four) × (sha_string true four 3 fresh_container abc ≡ result sc)
    × Holds true four four_laws ([] ++ abc) sc
    × (sc.tag ≡ 1)
sha_string-Holds_example =
    sha_string-Holds true four four_laws 3 [] abc fresh_container fresh_container-Holds
      (omega arith)

-- An array that holds itself and an object, whose field leads back to the array.
abbrev cyclic : Heap
cyclic = array (pointer 0 ∷ pointer 1 ∷ []) ∷ object ((5, pointer 0) ∷ (6, null) ∷ []) (some 1) ∷ []

nsha1-ends_example : (hash : List ℕ) × (nsha1 true held cyclic (pointer 0) ≡ some hash)
nsha1-ends_example =
    nsha1-ends true held cyclic (pointer 0)
      ((omega arith, (omega arith, tt)), (((omega arith, (tt, tt)), omega arith), tt)) (omega arith)

sha1_transform-schedule_example :
    sha1_transform true initial held true
    ≡ add_registers initial
        (compress 0 (schedule (map (read_word true) (load true (take 64 held)))) initial)
sha1_transform-schedule_example = sha1_transform-schedule true true initial held (omega arith)
