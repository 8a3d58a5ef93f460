-- ===== src/Openssl/Ops.antt =====
-- The arithmetic of dll_src/openssl/src/bn_neko.cpp on numbers that are there.
use caffeine_hx.Common.{ℕ, ◌≡◌, Option, none, some}
use caffeine_hx.Common.Int.{ℤ}
use caffeine_hx.Openssl.{
  Bignum, Bn, Value, array_of_two, Message, sqr_error, Heap, Act, result, store,
}
use caffeine_hx.Openssl.Arith.{
  bi_copy, bi_abs, with_new, op_to, put_or, bi_sqr_to, op_new, bi_mod_exp, bi_div_rem_to, ask_two,
  ask,
}
use caffeine_hx.Openssl.Bitwise.{bi_not}
use caffeine_hx.Openssl.Live.{
  Three, Two, One, At, IsLive, IsGood, with_kind-IsGood, on_number-IsGood, deref-IsGood,
  store-Stays, bi_allocate-IsGood, stored-IsGood, changed-IsGood, thrown-IsGood, int-IsGood,
}

module _ (bn : Bn) where
  pub op_to-IsGood : (f : Bignum → Bignum → Bignum → Bignum) → Three (op_to bn f)
  op_to-IsGood f a b r h la lb lr = with_kind-IsGood _ a h la (λ p lp.
      with_kind-IsGood _ b h lb (λ q lq. with_kind-IsGood _ r h lr (λ s ls.
        deref-IsGood _ p h lp (λ i x ai.
          deref-IsGood _ q h lq
            (λ j y aj. deref-IsGood _ s h ls (λ k z ak. stored-IsGood h k _ ak))))))

  pub with_new-IsGood :
      (z : Bignum)
      → bn.new ≡ some z
      → (use_number : Bignum → Act) (h : Heap) → IsGood h (use_number z h)
      → IsGood h (with_new bn use_number h)
  with_new-IsGood z had use_number h good = on_number-IsGood use_number h bn.new z had good

  pub op_new-IsGood :
      (z : Bignum) → bn.new ≡ some z → (f : Bignum → Bignum → Bignum → Bignum) → Two (op_new bn f)
  op_new-IsGood z had f a b h la lb = with_kind-IsGood _ a h la (λ p lp.
      with_kind-IsGood _ b h lb (λ q lq. deref-IsGood _ p h lp (λ i x ai.
        deref-IsGood _ q h lq (λ j y aj. with_new-IsGood z had _ h (bi_allocate-IsGood h _)))))

  pub ask_two-IsGood : (f : Bignum → Bignum → ℤ) → Two (ask_two bn f)
  ask_two-IsGood f a b h la lb = with_kind-IsGood _ a h la (λ p lp.
      with_kind-IsGood _ b h lb (λ q lq.
        deref-IsGood _ p h lp (λ i x ai. deref-IsGood _ q h lq (λ j y aj. int-IsGood h _))))

  pub ask-IsGood : (f : Bignum → ℤ) → One (ask bn f)
  ask-IsGood f a h la =
      with_kind-IsGood _ a h la (λ p lp. deref-IsGood _ p h lp (λ i x ai. int-IsGood h _))

  pub put_or-IsGood :
      (m : Message) (k : ℕ) (h : Heap) (o : Option Bignum) → At h k → IsGood h (put_or bn m k h o)
  put_or-IsGood m k h none there = thrown-IsGood h m
  put_or-IsGood m k h (some z) there = stored-IsGood h k z there

  pub bi_sqr_to-IsGood : Two (bi_sqr_to bn)
  unfolding bi_sqr_to
  bi_sqr_to-IsGood a r h la lr = with_kind-IsGood _ a h la (λ p lp.
      with_kind-IsGood _ r h lr (λ q lq.
        deref-IsGood _ p h lp
          (λ i x ai. deref-IsGood _ q h lq (λ k z ak. put_or-IsGood sqr_error k h _ ak))))

  pub bi_copy-IsGood : Two (bi_copy bn)
  unfolding bi_copy
  bi_copy-IsGood a b h la lb = with_kind-IsGood _ a h la (λ p lp. with_kind-IsGood _ b h lb (λ q lq.
      deref-IsGood _ p h lp (λ i x ai. deref-IsGood _ q h lq (λ j y aj. changed-IsGood h i _ ai))))

  pub bi_abs-IsGood : (z : Bignum) → bn.new ≡ some z → One (bi_abs bn)
  unfolding bi_abs
  bi_abs-IsGood z had a h la =
      with_kind-IsGood _ a h la (λ p lp.
        deref-IsGood _ p h lp (λ i x ai. with_new-IsGood z had _ h (bi_allocate-IsGood h _)))

  pub bi_not-IsGood : (z : Bignum) → bn.new ≡ some z → One (bi_not bn)
  unfolding bi_not
  bi_not-IsGood z had a h la = with_kind-IsGood _ a h la (λ p lp.
      deref-IsGood _ p h lp (λ i x ai. on_number-IsGood _ h bn.new z had (bi_allocate-IsGood h _)))

  pub bi_mod_exp-IsGood : (z : Bignum) → bn.new ≡ some z → Three (bi_mod_exp bn)
  unfolding bi_mod_exp
  bi_mod_exp-IsGood z0 had a b r h la lb lr = with_kind-IsGood _ a h la (λ p lp.
      with_kind-IsGood _ b h lb (λ q lq. with_kind-IsGood _ r h lr (λ s ls.
        deref-IsGood _ p h lp (λ i x ai. deref-IsGood _ q h lq (λ j y aj.
          deref-IsGood _ s h ls (λ k z ak. with_new-IsGood z0 had _ h (bi_allocate-IsGood h _)))))))

  both_stored :
      (h : Heap) (k l : ℕ) (q r : Bignum)
      → At h k
      → At h l
      → IsGood h (result (array_of_two k l) (store l r (store k q h)))
  unfolding IsGood
  both_stored h k l q r ak al =
      let first = store-Stays h k q ak in
      let second = store-Stays (store k q h) l r (first l al) in
      ((second k (first k ak), second l (first l al)), λ i a. second i (first i a))

  pub bi_div_rem_to-IsGood :
      (dv rem : Value) (a b : Value) (h : Heap)
      → IsLive h a
      → IsLive h b
      → IsLive h dv
      → IsLive h rem
      → IsGood h (bi_div_rem_to bn a b dv rem h)
  unfolding bi_div_rem_to
  bi_div_rem_to-IsGood dv rem a b h la lb ld lr = with_kind-IsGood _ a h la (λ p lp.
      with_kind-IsGood _ b h lb (λ q lq. with_kind-IsGood _ dv h ld (λ d ld.
        with_kind-IsGood _ rem h lr (λ r lr. deref-IsGood _ p h lp (λ i x ai.
          deref-IsGood _ q h lq (λ j y aj.
            deref-IsGood _ d h ld
              (λ k z ak. deref-IsGood _ r h lr (λ l u al. both_stored h k l _ _ ak al))))))))
