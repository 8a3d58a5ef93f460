-- ===== src/Openssl/Complement.antt =====
-- What bi_not of dll_src/openssl/src/bn_neko.cpp makes of a number.
use caffeine_hx.Common.{
  ℕ, zero, suc, ◌+◌, ◌*◌, ◌^◌, ◌<◌, ◌≡◌, refl, ap, ◌∙◌, not, List, [], ◌∷◌, ◌++◌, some, length,
  arith,
}
use caffeine_hx.Common.Slots.{slot}
use caffeine_hx.Openssl.{Bignum, Bn, big, Heap, result}
use caffeine_hx.Openssl.Bitwise.{complement_words, bi_not}

-- The number of words of 64 bits, the lowest first
abbrev pub natural : List ℕ → ℕ
natural [] = 0
natural (w ∷ ws) = w + 2 ^ 64 * natural ws

-- How many numbers that many words can hold
abbrev pub capacity : ℕ → ℕ
capacity zero = 1
capacity (suc n) = 2 ^ 64 * capacity n

abbrev pub AreWords : List ℕ → Type 0
AreWords [] = Unit {0}
AreWords (w ∷ ws) = (w < 2 ^ 64) × AreWords ws

natural-complement_words :
    (ws : List ℕ)
    → AreWords ws
    → natural (complement_words ws ws) + natural ws + 1 ≡ capacity (length ws)
unfolding complement_words
natural-complement_words [] h = omega arith
natural-complement_words (w ∷ ws) (fits, h) = omega (arith, fits, natural-complement_words ws h)

module _ (bn : Bn) where
  -- Over a BN_new that gives a number and a BN_copy that copies the words, `bi_not` makes a new number of the other sign, whose absolute value
  -- and that of the old one add up to the largest number of that many words; the old one stays.
  pub bi_not-natural :
      (z : Bignum)
      → bn.new ≡ some z
      → ((z x : Bignum) → (bn.copy z x).words ≡ x.words)
      → (i : ℕ) (x : Bignum) (h : Heap) → slot h i ≡ some x
      → AreWords x.words
      → (r : Bignum) × ((bi_not bn (big (some i)) h
            ≡ result (big (some (length h))) (h ++ some r ∷ []))
          × (natural r.words + natural x.words + 1 ≡ capacity (length x.words))
          × (r.neg ≡ not x.neg))
  unfolding bi_not
  bi_not-natural z had copies i x h there words =
      let r : Bignum = bn.copy z x in
      let n : Bignum = record r { words = complement_words x.words r.words; neg = not x.neg } in
      (
        n,
        (
          rw (there, had) refl,
          ap (λ ws. natural (complement_words x.words ws) + natural x.words + 1) (copies z x)
              ∙ natural-complement_words x.words words,
          refl,
        ),
      )
