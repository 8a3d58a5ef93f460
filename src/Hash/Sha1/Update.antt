-- ===== src/Hash/Sha1/Update.antt =====
-- What it means that a context stands for a message, for SHA1Update and the chunk loops of sha1.c and
-- sha1_lua_neko.c (dll_src/hash/src).
use caffeine_hx.Common.{
  ℕ, zero, suc, ◌+◌, ◌-◌, ◌*◌, ◌/◌, ◌%◌, ◌^◌, ◌≤◌, ◌<◌, ◌≡◌, refl, sym, ap, ◌∙◌, subst, Bool, List,
  [], ◌∷◌, ◌++◌, append_assoc, append-nil, length, length-append, take, drop, length-take,
  length-drop, take-append-drop, take-length_append, drop_all, tests, ltb, if◌then◌else◌, arith,
  inl, inr, Bool-cases,
}
use caffeine_hx.Hash.Sha1.Context.{
  Context, initial, copy_in, add_count, fill, transform_data, sha1_update, update_chunks,
}
use caffeine_hx.Hash.Sha1.Stream.{
  Fed, feeds, feeds-append, feeds_short, feeds_block, length-feeds, transform_data-feeds,
}
use caffeine_hx.Hash.Sha1.Transform.{word_mod, sha1_transform}

-- The unsigned carry test.
carry_sum :
    (a b : ℕ)
    → a < word_mod
    → b < word_mod
    → (a + b) % word_mod + word_mod * (if ltb ((a + b) % word_mod) b then 1 else 0) ≡ a + b
carry_sum a b h k = ground arith

small_sum : (a b : ℕ) → a + b < word_mod → (a + b) % word_mod ≡ a + b
small_sum a b h = omega arith

shifted_sum :
    (len : ℕ) → len < word_mod → (len * 8) % word_mod + word_mod * (len / 2 ^ 29) ≡ 8 * len
shifted_sum len h = omega arith

-- Adding the bits of a message part to the count of 64 bits in two words.
add_count-sum :
    (len total : ℕ) (c : Context)
    → len < word_mod
    → c.count0 + word_mod * c.count1 ≡ (8 * total) % 2 ^ 64
    → c.count0 < word_mod
    → c.count1 < word_mod
    → (add_count len c).count0 + word_mod * (add_count len c).count1 ≡ (8 * (total + len)) % 2 ^ 64
unfolding add_count
add_count-sum len total c l e a b =
    let bits = (len * 8) % word_mod in
    omega (arith, carry_sum c.count0 bits a (omega arith), shifted_sum len l)

module _ (machine_le le : Bool) where
  -- The message read so far, fed to the reference.
  abbrev pub fed : List ℕ → Fed
  fed m = feeds machine_le le (initial, []) m

  -- A context stands for the message `m`.
  pub record Represents (m : List ℕ) (c : Context) : Type 0 where
    pub le_is : c.le ≡ le
    pub state_is : c.state ≡ (fed m).0
    pub part_is : take (length (fed m).1) c.buffer ≡ (fed m).1
    pub size : length c.buffer ≡ 64
    pub counted : c.count0 + word_mod * c.count1 ≡ (8 * length m) % 2 ^ 64
    pub low : c.count0 < word_mod
    pub high : c.count1 < word_mod

  fed-append : (m bytes : List ℕ) → fed (m ++ bytes) ≡ feeds machine_le le (fed m) bytes
  fed-append m bytes = feeds-append machine_le le (initial, []) m bytes

  pub length-fed : (m : List ℕ) → length (fed m).1 ≡ length m % 64
  length-fed m = omega (arith, length-feeds machine_le le (initial, []) m (omega arith))

  -- The fill of the block, as the code reads it off the count.
  pub fill_is : (m : List ℕ) (c : Context) → Represents m c → (c.count0 / 8) % 64 ≡ length (fed m).1
  fill_is m c r = omega (arith, r.counted, r.low, r.high, length-fed m)

  -- What a copy to the front of the free part leaves.
  copy_in-split :
      (buffer part bytes : List ℕ)
      → take (length part) buffer ≡ part
      → copy_in buffer (length part) bytes
        ≡ (part ++ bytes) ++ drop (length part + length bytes) buffer
  copy_in-split buffer part bytes e =
      rw (e, append_assoc part bytes (drop (length part + length bytes) buffer))

  length-copy_in :
      (buffer part bytes : List ℕ)
      → take (length part) buffer ≡ part
      → length buffer ≡ 64
      → length part + length bytes ≤ 64
      → length (copy_in buffer (length part) bytes) ≡ 64
  length-copy_in buffer part bytes e s h = rw (copy_in-split buffer part bytes e) (
      omega (
        arith,
        length-append (part ++ bytes) (drop (length part + length bytes) buffer),
        length-append part bytes,
        length-drop (length part + length bytes) buffer,
      ))

  -- A new state and block stand for the longer message, where the reference has them.
  extend :
      (m bytes : List ℕ) (c : Context) (after : Fed) (buffer : List ℕ) (order : Bool)
      → Represents m c
      → order ≡ le
      → length bytes < word_mod
      → fed (m ++ bytes) ≡ after
      → take (length after.1) buffer ≡ after.1
      → length buffer ≡ 64
      → Represents
          (m ++ bytes)
          (record (add_count (length bytes) c) { state = after.0; buffer = buffer; le = order })
  extend m bytes c after buffer order r o l e p z = record {
    le_is = o;
    state_is = rw e;
    part_is = rw e p;
    size = z;
    counted =
        rw (length-append m bytes)
          (add_count-sum (length bytes) (length m) c l r.counted r.low r.high);
    low = unfold add_count in omega arith;
    high = unfold add_count in omega arith;
  }

  -- Bytes that do not complete the block.
  short-Represents :
      (m bytes : List ℕ) (c : Context)
      → Represents m c
      → length (fed m).1 + length bytes < 64
      → length bytes < word_mod
      → Represents (m ++ bytes) (record (add_count (length bytes) c) {
        buffer = copy_in c.buffer (length (fed m).1) bytes;
      })
  short-Represents m bytes c r h l =
      let part = (fed m).1 in
      let buffer = copy_in c.buffer (length part) bytes in
      let next =
        extend m bytes c ((fed m).0, part ++ bytes) buffer c.le r r.le_is l
          (fed-append m bytes ∙ feeds_short machine_le le (fed m).0 part bytes h)
          (rw (copy_in-split c.buffer part bytes r.part_is)
            (take-length_append (part ++ bytes) (drop (length part + length bytes) c.buffer)))
          (length-copy_in c.buffer part bytes r.part_is r.size (omega arith)) in
      unfold add_count in
      subst
        (λ x.
          Represents (m ++ bytes)
            (record (add_count (length bytes) c) { state = x; buffer = buffer }))
        (sym r.state_is) next

  -- The block completed by the first bytes.
  full_is :
      (m first : List ℕ) (c : Context)
      → Represents m c
      → length (fed m).1 + length first ≡ 64
      → copy_in c.buffer (length (fed m).1) first ≡ (fed m).1 ++ first
  full_is m first c r h =
      copy_in-split c.buffer (fed m).1 first r.part_is
      ∙ rw (h, drop_all 64 c.buffer (omega (arith, r.size))) (append-nil ((fed m).1 ++ first))

  -- The state and the bytes left, when the block is filled and whole blocks follow.
  blocks_are :
      (m bytes : List ℕ)
      → length (fed m).1 < 64
      → 63 < length (fed m).1 + length bytes
      → let k = 64 - length (fed m).1 in
        fed (m ++ bytes)
        ≡ transform_data machine_le
            (length bytes)
            le
            (sha1_transform machine_le (fed m).0 ((fed m).1 ++ take k bytes) le)
            (drop k bytes)
  blocks_are m bytes f h =
      let k = 64 - length (fed m).1 in
      let first = take k bytes in
      fed-append m bytes
      ∙ ap (feeds machine_le le (fed m)) (sym (take-append-drop k bytes))
      ∙ feeds-append machine_le le (fed m) first (drop k bytes)
      ∙ ap (λ s. feeds machine_le le s (drop k bytes))
          (feeds_block machine_le le (fed m).0 (fed m).1 first (omega (arith, length-take k bytes))
            f)
      ∙ sym (
          transform_data-feeds machine_le le (length bytes)
            (sha1_transform machine_le (fed m).0 ((fed m).1 ++ first) le) (drop k bytes)
            (omega (arith, length-drop k bytes)))

  -- Bytes that complete the block, and whole blocks behind them.
  fill-Represents :
      (m bytes : List ℕ) (c : Context)
      → Represents m c
      → length (fed m).1 < 64
      → 63 < length (fed m).1 + length bytes
      → length bytes < word_mod
      → Represents
          (m ++ bytes)
          (fill machine_le (length (fed m).1) bytes (add_count (length bytes) c))
  unfolding fill add_count
  fill-Represents m bytes c r f h l =
      let k = 64 - length (fed m).1 in
      let first = take k bytes in
      let full = (fed m).1 ++ first in
      let after =
        transform_data machine_le (length bytes) le (sha1_transform machine_le (fed m).0 full le)
          (drop k bytes) in
      let e = blocks_are m bytes f h in
      let filled : length (fed m).1 + length first ≡ 64 = omega (arith, length-take k bytes) in
      let short : length after.1 < 64 = rw (← e) (omega (arith, length-fed (m ++ bytes))) in
      rw (full_is m first c r filled, r.state_is, r.le_is)
        (extend m bytes c after (copy_in full 0 after.1) le r refl l e
          (take-length_append after.1 (drop (0 + length after.1) full))
          (length-copy_in full [] after.1 refl
            (omega (arith, filled, length-append (fed m).1 first)) (omega arith)))

  -- SHA1Update on a context that stands for `m`: it stands for `m` and the bytes behind it. The bytes
  -- are fewer than 2 ^ 32 - 63.
  pub sha1_update-Represents :
      (m bytes : List ℕ) (c : Context)
      → Represents m c
      → length bytes + 64 ≤ word_mod
      → Represents (m ++ bytes) (sha1_update machine_le c bytes)
  unfolding sha1_update
  sha1_update-Represents m bytes c r l =
      let j = length (fed m).1 in
      let f = length-fed m in
      rw (fill_is m c r, small_sum j (length bytes) (omega (arith, f)))
        (elim (Bool-cases (ltb 63 (j + length bytes))) [
          | inl full ↦
              rw full (fill-Represents m bytes c r (omega (arith, f)) (omega tests) (omega arith))
          | inr room ↦ rw room (short-Represents m bytes c r (ground arith) (omega arith))
        ])

  -- A context that SHA1Init set up, with any 64 bytes in its block, stands for the empty message.
  pub initial-Represents :
      (held : List ℕ)
      → length held ≡ 64
      → Represents [] (record { state = initial; count0 = 0; count1 = 0; buffer = held; le = le })
  unfolding feeds
  initial-Represents held h = record {
    le_is = refl;
    state_is = refl;
    part_is = refl;
    size = h;
    counted = refl;
    low = omega arith;
    high = omega arith;
  }

  -- The loop over chunks of 16384 bytes, on a context that stands for `m`, with at least the number of
  -- bytes as fuel: the context stands for `m` and all of the bytes behind it.
  pub update_chunks-Represents :
      (fuel : ℕ) (m bytes : List ℕ) (c : Context)
      → Represents m c
      → length bytes ≤ fuel
      → Represents (m ++ bytes) (update_chunks machine_le fuel c bytes)
  unfolding update_chunks
  update_chunks-Represents zero m [] c r h = rw (append-nil m) r
  update_chunks-Represents zero m (b ∷ bytes) c r h = absurd (omega arith)
  update_chunks-Represents (suc fuel) m [] c r h = rw (append-nil m) r
  update_chunks-Represents (suc fuel) m (b ∷ bytes) c r h =
      let chunk = take 16384 (b ∷ bytes) in
      let rest = drop 16384 (b ∷ bytes) in
      let next =
        update_chunks-Represents fuel (m ++ chunk) rest (sha1_update machine_le c chunk)
          (sha1_update-Represents m chunk c r (omega (arith, length-take 16384 (b ∷ bytes))))
          (omega (arith, length-drop 16384 (b ∷ bytes))) in
      subst
        (λ x. Represents x (update_chunks machine_le fuel (sha1_update machine_le c chunk) rest))
        (append_assoc m chunk rest ∙ ap (λ x. m ++ x) (take-append-drop 16384 (b ∷ bytes))) next
