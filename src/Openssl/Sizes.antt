-- ===== src/Openssl/Sizes.antt =====
-- bi_bitwise_to of dll_src/openssl/src/bn_neko.cpp on numbers of different sizes.
use caffeine_hx.Common.{ℕ, ◌<◌, ◌≤◌, ◌≡◌, ◌≢◌, refl, ap, sym, ◌∙◌, false, some, length, ◌==◌, arith}
use caffeine_hx.Common.Int.{ℤ}
use caffeine_hx.Common.Slots.{slot, slot-lt, slot-set_within, slot-set_other}
use caffeine_hx.Openssl.{Bignum, Bn, int, big, Heap, aborted, store}
use caffeine_hx.Openssl.Bitwise.{bi_bitwise_to}

slot-store_self :
    (h : Heap) (i : ℕ) (x u : Bignum) → slot h i ≡ some u → slot (store i x h) i ≡ some x
slot-store_self h i x u p = slot-set_within h i (some x) (slot-lt h i p)

slot-store_other :
    (h : Heap) (i j : ℕ) (x y : Bignum) → i ≢ j → slot h j ≡ some y → slot (store i x h) j ≡ some y
slot-store_other h i j x y ne p = slot-set_other h i j (some x) ne ∙ p

-- The numbers at three different places
module _ (i j k : ℕ) (ij : i ≢ j) (ik : i ≢ k) (jk : j ≢ k) where
  abbrev Three : Heap → Bignum → Bignum → Bignum → Type 0
  Three h x y z = (slot h i ≡ some x) × (slot h j ≡ some y) × (slot h k ≡ some z)

  store_first : (h : Heap) (x y z u : Bignum) → Three h x y z → Three (store i u h) u y z
  store_first h x y z u (p, q, r) =
      (slot-store_self h i u x p, slot-store_other h i j u y ij q, slot-store_other h i k u z ik r)

  store_second : (h : Heap) (x y z u : Bignum) → Three h x y z → Three (store j u h) x u z
  store_second h x y z u (p, q, r) = (
    slot-store_other h j i u x (λ e. ij (sym e)) p,
    slot-store_self h j u y q,
    slot-store_other h j k u z jk r,
  )

  store_third : (h : Heap) (x y z u : Bignum) → Three h x y z → Three (store k u h) x y u
  store_third h x y z u (p, q, r) = (
    slot-store_other h k i u x (λ e. ik (sym e)) p,
    slot-store_other h k j u y (λ e. jk (sym e)) q,
    slot-store_self h k u z r,
  )

module _ (bn : Bn) where
  -- BN_copy copies the words, and makes room for them; bn_wexpand makes room, and leaves the words.
  pub record HasRoom : Type 0 where
    pub copies : (z x : Bignum) → (bn.copy z x).words ≡ x.words
    pub grown : Bignum → ℕ → Bignum
    pub expands : (x : Bignum) (n : ℕ) → bn.wexpand x n ≡ some (grown x n)
    pub grown_words : (x : Bignum) (n : ℕ) → (grown x n).words ≡ x.words
    pub grown_room : (x : Bignum) (n : ℕ) → n ≤ (grown x n).dmax
    pub grown_keeps : (x : Bignum) (n : ℕ) → x.dmax ≤ (grown x n).dmax

  -- For three different numbers, of which A is not 0, has its words in its room, and has not as many words
  -- as B, `bi_bitwise_to` aborts at its assertion: bn_wexpand makes room for words, and does not add any.
  pub bi_bitwise_to-aborted :
      HasRoom
      → (i j k : ℕ) (x y z : Bignum) (func : ℤ) (h : Heap) → slot h i ≡ some x
      → slot h j ≡ some y
      → slot h k ≡ some z
      → i ≢ j
      → i ≢ k
      → j ≢ k
      → 0 < length x.words
      → length x.words ≤ x.dmax
      → length x.words ≢ length y.words
      → bi_bitwise_to bn (big (some i)) (big (some j)) (int func) (big (some k)) h ≡ aborted
  unfolding bi_bitwise_to
  bi_bitwise_to-aborted room i j k x y z func h at_i at_j at_k ij ik jk some_word has_room differ =
      let z1 : Bignum = bn.copy z x in
      let x2 : Bignum = room.grown x (length y.words) in
      let y2 : Bignum = room.grown y (length x2.words) in
      let z2 : Bignum = room.grown z1 (length x2.words) in
      let h1 : Heap = store k z1 h in
      let (i1, j1, k1) = store_third i j k ij ik jk h x y z z1 (at_i, at_j, at_k) in
      let h2 : Heap = store i x2 h1 in
      let (i2, j2, k2) = store_first i j k ij ik jk h1 x y z1 x2 (i1, j1, k1) in
      let h3 : Heap = store j y2 h2 in
      let (i3, j3, k3) = store_second i j k ij ik jk h2 x2 y z1 y2 (i2, j2, k2) in
      let (i4, j4, k4) = store_third i j k ij ik jk h3 x2 y2 z1 z2 (i3, j3, k3) in
      let x_size : length x2.words ≡ length x.words =
        ap length (room.grown_words x (length y.words)) in
      let y_size : length y2.words ≡ length y.words =
        ap length (room.grown_words y (length x2.words)) in
      let x_room : (x2.dmax == 0) ≡ false =
        room_lem x2.dmax (omega (arith, room.grown_keeps x (length y.words))) in
      let y_room : (y2.dmax == 0) ≡ false =
        room_lem y2.dmax (omega (arith, room.grown_room y (length x2.words))) in
      let z_room : (z2.dmax == 0) ≡ false =
        room_lem z2.dmax (omega (arith, room.grown_room z1 (length x2.words))) in
      let unequal : (length x2.words == length y2.words) ≡ false =
        unequal_lem (length x2.words) (length y2.words) (λ p. differ (sym x_size ∙ p ∙ y_size)) in
      rw
        (
          at_i,
          at_k,
          j1,
          i1,
          room.expands x (length y.words),
          i2,
          j2,
          room.expands y (length x2.words),
          i3,
          k3,
          room.expands z1 (length x2.words),
          i4,
          j4,
          k4,
          x_room,
          y_room,
          z_room,
          unequal,
        )
        refl
    where
      room_lem : (n : ℕ) → 0 < n → (n == 0) ≡ false
      room_lem n p = ground arith

      unequal_lem : (m n : ℕ) → m ≢ n → (m == n) ≡ false
      unequal_lem m n p = ground arith
