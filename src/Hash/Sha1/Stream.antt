-- ===== src/Hash/Sha1/Stream.antt =====
-- SHA-1 as a function of the message, fed byte by byte, and the loop of SHA1Update
-- (dll_src/hash/src/sha1.c) against it.
use caffeine_hx.Common.{
  ℕ, zero, suc, ◌+◌, ◌%◌, ◌≤◌, ◌<◌, ◌≡◌, refl, sym, ap, ◌∙◌, Bool, List, [], ◌∷◌, ◌++◌,
  append_assoc, append-nil, length, length-append, take, drop, length-take, length-drop,
  take-append-drop, take-take, tests, ltb, ◌==◌, if◌then◌else◌, arith, inl, inr, Bool-cases,
}
use caffeine_hx.Hash.Sha1.Context.{transform_data}
use caffeine_hx.Hash.Sha1.Transform.{Registers, sha1_transform}

-- The registers, and the bytes of the block that is not full yet.
abbrev pub Fed : Type 0
Fed = Registers × List ℕ

module _ (machine_le le : Bool) where
  -- The reference: one byte more, and a transform whenever 64 bytes are there.
  abbrev pub feed : Fed → ℕ → Fed
  feed (state, part) b =
      if length part == 63
      then (sha1_transform machine_le state (part ++ b ∷ []) le, [])
      else (state, part ++ b ∷ [])

  unfoldable pub feeds : Fed → List ℕ → Fed
  feeds s [] = s
  feeds s (b ∷ bytes) = feeds (feed s b) bytes

  pub feeds-append : (s : Fed) (a b : List ℕ) → feeds s (a ++ b) ≡ feeds (feeds s a) b
  unfolding feeds
  feeds-append s [] b = refl
  feeds-append s (x ∷ a) b = feeds-append (feed s x) a b

  feed_open :
      (state : Registers) (part : List ℕ) (b : ℕ)
      → length part < 63
      → feed (state, part) b ≡ (state, part ++ b ∷ [])
  feed_open state part b h = ground arith

  feed_close :
      (state : Registers) (part : List ℕ) (b : ℕ)
      → length part ≡ 63
      → feed (state, part) b ≡ (sha1_transform machine_le state (part ++ b ∷ []) le, [])
  feed_close state part b h = ground arith

  -- Bytes that do not complete the block are kept.
  pub feeds_short :
      (state : Registers) (part bytes : List ℕ)
      → length part + length bytes < 64
      → feeds (state, part) bytes ≡ (state, part ++ bytes)
  unfolding feeds
  feeds_short state part [] h = rw (append-nil part)
  feeds_short state part (b ∷ bytes) h = rw (feed_open state part b (omega arith)) (
      feeds_short state (part ++ b ∷ []) bytes (omega (arith, length-append part (b ∷ [])))
      ∙ rw (append_assoc part (b ∷ []) bytes))

  -- Bytes that complete it are transformed with it.
  pub feeds_block :
      (state : Registers) (part bytes : List ℕ)
      → length part + length bytes ≡ 64
      → length part < 64
      → feeds (state, part) bytes ≡ (sha1_transform machine_le state (part ++ bytes) le, [])
  unfolding feeds
  feeds_block state part [] h l = absurd (omega arith)
  feeds_block state part (b ∷ []) h l = feed_close state part b (omega arith)
  feeds_block state part (b ∷ c ∷ bytes) h l = rw (feed_open state part b (omega arith)) (
      feeds_block state (part ++ b ∷ []) (c ∷ bytes) (omega (arith, length-append part (b ∷ [])))
        (omega (arith, length-append part (b ∷ [])))
      ∙ rw (append_assoc part (b ∷ []) (c ∷ bytes)))

  -- How far the block is filled.
  length-feed : (s : Fed) (b : ℕ) → length s.1 < 64 → length (feed s b).1 ≡ (length s.1 + 1) % 64
  length-feed (state, part) b h = ground (arith, length-append part (b ∷ []))

  pub length-feeds :
      (s : Fed) (bytes : List ℕ)
      → length s.1 < 64
      → length (feeds s bytes).1 ≡ (length s.1 + length bytes) % 64
  unfolding feeds
  length-feeds s [] h = omega arith
  length-feeds s (b ∷ bytes) h =
      let e = length-feed s b h in
      omega (arith, e, length-feeds (feed s b) bytes (omega (arith, e)))

  sha1_transform-take :
      (state : Registers) (bytes : List ℕ)
      → sha1_transform machine_le state (take 64 bytes) le
        ≡ sha1_transform machine_le state bytes le
  unfolding sha1_transform
  sha1_transform-take state bytes = rw (take-take 64 bytes)

  pub transform_data-feeds :
      (fuel : ℕ) (state : Registers) (bytes : List ℕ)
      → length bytes ≤ fuel
      → transform_data machine_le fuel le state bytes ≡ feeds (state, []) bytes
  unfolding transform_data feeds
  transform_data-feeds zero state [] h = refl
  transform_data-feeds zero state (b ∷ bytes) h = absurd (omega arith)
  transform_data-feeds (suc fuel) state bytes h = elim (Bool-cases (ltb 63 (length bytes))) [
    | inl more ↦ rw more (
        transform_data-feeds fuel (sha1_transform machine_le state bytes le) (drop 64 bytes)
          (omega (tests, length-drop 64 bytes))
        ∙ rw (← sha1_transform-take state bytes) (
            rw
              (← feeds_block state [] (take 64 bytes) (omega (tests, length-take 64 bytes))
                (omega arith))
              (sym (feeds-append (state, []) (take 64 bytes) (drop 64 bytes))
                ∙ ap (feeds (state, [])) (take-append-drop 64 bytes))))
    | inr less ↦ rw less (sym (feeds_short state [] bytes (ground arith)))
  ]
