-- ===== src/Hash/Sha1/Digest.antt =====
-- SHA1Final, SHA1 and runs of SHA1Update against the digest of the padded message.
use caffeine_hx.Common.{
  ℕ, zero, suc, ◌+◌, ◌-◌, ◌*◌, ◌/◌, ◌%◌, ◌^◌, ◌≤◌, ◌<◌, ◌≡◌, refl, ap, ◌∙◌, subst, Bool, List, [],
  ◌∷◌, ◌++◌, append_assoc, append-nil, length, length-append, replicate, length-replicate, ◌==◌,
  arith, false, not,
}
use caffeine_hx.Hash.Sha1.Context.{
  Context, sha1_update, sha1_init, be_test, update_chunks, word_byte, final_count, digest_bytes,
  pad_zeros, sha1_final, sha1,
}
use caffeine_hx.Hash.Sha1.Transform.{word_mod}
use caffeine_hx.Hash.Sha1.Update.{
  fed, Represents, fill_is, length-fed, sha1_update-Represents, initial-Represents,
  update_chunks-Represents,
}

-- The message's bit length as eight bytes, the highest one first.
abbrev pub length_bytes : ℕ → List ℕ
length_bytes n =
    (n / 2 ^ 56) % 256
    ∷ (n / 2 ^ 48) % 256
    ∷ (n / 2 ^ 40) % 256
    ∷ (n / 2 ^ 32) % 256
    ∷ (n / 2 ^ 24) % 256
    ∷ (n / 2 ^ 16) % 256
    ∷ (n / 2 ^ 8) % 256
    ∷ n % 256
    ∷ []

-- The zeros behind the byte 0x80 that leave 8 bytes of the last block.
abbrev pub zeros_for : List ℕ → ℕ
zeros_for m = (119 - length m % 64) % 64

-- FIPS 180: the message, the bit 1, zeros, the bit length.
abbrev pub padded : List ℕ → List ℕ
padded m = m ++ (0x80 ∷ (replicate (zeros_for m) 0 ++ length_bytes (8 * length m)))

final_count_is :
    (n : ℕ) (c : Context)
    → c.count0 + word_mod * c.count1 ≡ n % 2 ^ 64
    → c.count0 < word_mod
    → c.count1 < word_mod
    → final_count c ≡ length_bytes n
unfolding final_count
final_count_is n c e a b =
    let b0 : word_byte c.count1 0 ≡ (n / 2 ^ 56) % 256 = omega arith in
    let b1 : word_byte c.count1 1 ≡ (n / 2 ^ 48) % 256 = omega arith in
    let b2 : word_byte c.count1 2 ≡ (n / 2 ^ 40) % 256 = omega arith in
    let b3 : word_byte c.count1 3 ≡ (n / 2 ^ 32) % 256 = omega arith in
    let b4 : word_byte c.count0 0 ≡ (n / 2 ^ 24) % 256 = omega arith in
    let b5 : word_byte c.count0 1 ≡ (n / 2 ^ 16) % 256 = omega arith in
    let b6 : word_byte c.count0 2 ≡ (n / 2 ^ 8) % 256 = omega arith in
    let b7 : word_byte c.count0 3 ≡ n % 256 = omega arith in
    rw (b0, b1, b2, b3, b4, b5, b6, b7) refl

module _ (machine_le le : Bool) where
  -- The digest of a message by the reference.
  abbrev pub digest : List ℕ → List ℕ
  digest m = digest_bytes (fed machine_le le (padded m)).0

  pub length-padded : (m : List ℕ) → length (padded m) % 64 ≡ 0
  length-padded m = omega (
    arith,
    length-append m (0x80 ∷ (replicate (zeros_for m) 0 ++ length_bytes (8 * length m))),
    length-append (replicate (zeros_for m) 0) (length_bytes (8 * length m)),
    length-replicate {A = ℕ} (zeros_for m) 0,
  )

  -- The padding loop: it ends at 56 bytes of the last block.
  pad_zeros-Represents :
      (z fuel : ℕ) (m : List ℕ) (c : Context)
      → Represents machine_le le m c
      → z < fuel
      → z < 64
      → (length m + z) % 64 ≡ 56
      → Represents machine_le le (m ++ replicate z 0) (pad_zeros machine_le fuel c)
  unfolding pad_zeros
  pad_zeros-Represents z zero m c r f l e = absurd (omega arith)
  pad_zeros-Represents zero (suc fuel) m c r f l e =
      let full : (c.count0 / 8) % 64 ≡ 56 =
        omega (arith, fill_is machine_le le m c r, length-fed machine_le le m) in
      rw (append-nil m, full) r
  pad_zeros-Represents (suc z) (suc fuel) m c r f l e =
      let more : (c.count0 / 8) % 64 * 8 == 448 ≡ false =
        ground (arith, fill_is machine_le le m c r, length-fed machine_le le m) in
      let next =
        pad_zeros-Represents z fuel (m ++ 0 ∷ []) (sha1_update machine_le c (0 ∷ []))
          (sha1_update-Represents machine_le le m (0 ∷ []) c r (omega arith)) (omega arith)
          (omega arith) (omega (arith, length-append m (0 ∷ []))) in
      rw more (
        subst
          (λ x.
            Represents machine_le le x
              (pad_zeros machine_le fuel (sha1_update machine_le c (0 ∷ []))))
          (append_assoc m (0 ∷ []) (replicate z 0)) next)

  padded_parts :
      (m : List ℕ)
      → ((m ++ 0x80 ∷ []) ++ replicate (zeros_for m) 0) ++ length_bytes (8 * length m) ≡ padded m
  padded_parts m =
      ap (λ x. x ++ length_bytes (8 * length m))
        (append_assoc m (0x80 ∷ []) (replicate (zeros_for m) 0))
      ∙ append_assoc m (0x80 ∷ replicate (zeros_for m) 0) (length_bytes (8 * length m))

  -- The context as the last SHA1Update of SHA1Final leaves it.
  last-Represents :
      (m : List ℕ) (c : Context)
      → Represents machine_le le m c
      → Represents machine_le le (padded m) (
          sha1_update machine_le
            (pad_zeros machine_le 64 (sha1_update machine_le c (0x80 ∷ [])))
            (final_count c))
  last-Represents m c r =
      let one = m ++ 0x80 ∷ [] in
      let zeros =
        pad_zeros-Represents (zeros_for m) 64 one (sha1_update machine_le c (0x80 ∷ []))
          (sha1_update-Represents machine_le le m (0x80 ∷ []) c r (omega arith)) (omega arith)
          (omega arith) (omega (arith, length-append m (0x80 ∷ []))) in
      rw (final_count_is (8 * length m) c r.counted r.low r.high) (
        subst
          (λ x. Represents machine_le le x (
            sha1_update machine_le (pad_zeros machine_le 64 (sha1_update machine_le c (0x80 ∷ [])))
              (length_bytes (8 * length m))))
          (padded_parts m)
          (sha1_update-Represents machine_le le (one ++ replicate (zeros_for m) 0)
            (length_bytes (8 * length m)) _ zeros (omega arith)))

  -- A context that stands for the message `m`: SHA1Final gives the digest of the padded message, and
  -- the padding leaves no byte of it untransformed.
  pub sha1_final-digest :
      (m : List ℕ) (c : Context)
      → Represents machine_le le m c
      → ((sha1_final machine_le c).0 ≡ digest m) × (length (fed machine_le le (padded m)).1 ≡ 0)
  unfolding sha1_final
  sha1_final-digest m c r = (
    ap digest_bytes (last-Represents m c r).state_is,
    omega (arith, length-fed machine_le le (padded m), length-padded m),
  )

unfoldable pub joined : List (List ℕ) → List ℕ
joined [] = []
joined (part ∷ parts) = part ++ joined parts

-- Every part fits the 32 bits of SHA1Update's `len`, with a block to spare.
unfoldable pub IsShort : List (List ℕ) → Type 0
IsShort [] = Unit
IsShort (part ∷ parts) = (length part + 64 ≤ word_mod) × IsShort parts

module _ (machine_le : Bool) where
  -- One SHA1Update for each part of the message.
  unfoldable pub updates : Context → List (List ℕ) → Context
  updates c [] = c
  updates c (part ∷ parts) = updates (sha1_update machine_le c part) parts

  updates-Represents :
      (le : Bool) (m : List ℕ) (parts : List (List ℕ)) (c : Context)
      → Represents machine_le le m c
      → IsShort parts
      → Represents machine_le le (m ++ joined parts) (updates c parts)
  unfolding updates joined IsShort
  updates-Represents le m [] c r h = rw (append-nil m) r
  updates-Represents le m (part ∷ parts) c r h =
      subst (λ x. Represents machine_le le x (updates (sha1_update machine_le c part) parts))
        (append_assoc m part (joined parts))
        (updates-Represents le (m ++ part) parts (sha1_update machine_le c part)
          (sha1_update-Represents machine_le le m part c r h.0) h.1)

  -- SHA1Init, one SHA1Update for each of the parts, SHA1Final: the digest depends on the
  -- concatenation of the parts alone, neither on how the message is cut, nor on what the block of the
  -- context held. The parts are shorter than 2 ^ 32 - 63 bytes.
  pub updates-digest :
      (held : List ℕ) (parts : List (List ℕ))
      → length held ≡ 64
      → IsShort parts
      → (sha1_final machine_le (updates (sha1_init machine_le held) parts)).0
        ≡ digest machine_le (not (be_test machine_le)) (joined parts)
  unfolding sha1_init
  updates-digest held parts z h =
      let le = not (be_test machine_le) in
      (sha1_final-digest machine_le le (joined parts) (updates (sha1_init machine_le held) parts) (
        updates-Represents le [] parts (sha1_init machine_le held)
          (initial-Represents machine_le le held z) h)).0

  -- `SHA1` ends on every message, of any length, and gives its digest.
  pub sha1-digest :
      (held message : List ℕ)
      → length held ≡ 64
      → sha1 machine_le held message ≡ digest machine_le (not (be_test machine_le)) message
  unfolding sha1 sha1_init
  sha1-digest held message z =
      let le = not (be_test machine_le) in
      (sha1_final-digest machine_le le message
        (update_chunks machine_le (length message) (sha1_init machine_le held) message)
        (update_chunks-Represents machine_le le (length message) [] message
          (sha1_init machine_le held) (initial-Represents machine_le le held z) (omega arith))).0
