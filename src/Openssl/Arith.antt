-- ===== src/Openssl/Arith.antt =====
-- The arithmetic of dll_src/openssl/src/bn_neko.cpp.
use caffeine_hx.Common.{
  ℕ, Bool, true, false, List, [], ◌∷◌, ◌++◌, Option, none, some, length, set, if◌then◌else◌,
}
use caffeine_hx.Common.Int.{ℤ, pos, negsuc}
use caffeine_hx.Common.Slots.{slot}
use caffeine_hx.Openssl.{
  Bignum, Bn, Value, int, bool, big, array_of_two, Message, sqr_error, Heap, Answer, result, thrown,
  Act, with_kind, on_number, deref, bi_allocate, store,
}

module _ (bn : Bn) where
  -- A NULL of BN_new is wrapped too.
  abbrev pub new_value : Option Bignum → Act
  new_value none h = result (big none) h
  new_value (some x) h = bi_allocate x h

  unfoldable pub bi_new : Act
  bi_new h = new_value bn.new h

  -- What is done with a new number, where a NULL is used.
  abbrev pub with_new : (Bignum → Act) → Act
  with_new use_number h = on_number use_number bn.new h

  unfoldable pub bi_zero : Act
  bi_zero h = with_new (λ z. bi_allocate bn.zero_ex) h

  unfoldable pub bi_one : Act
  bi_one h = with_new (λ z. bi_allocate bn.one) h

  -- The finalizer, which DEFINE_PRIM exports too; `none` where a BIGNUM is freed a second time.
  abbrev pub freed_number : ℕ → Heap → Option Bignum → Option Heap
  freed_number i h none = none
  freed_number i h (some x) = some (set h i none)

  unfoldable pub destroy_biginteger : Value → Heap → Option Heap
  destroy_biginteger (big (some i)) h = freed_number i h (slot h i)
  destroy_biginteger _ h = some h

  unfoldable pub bi_copy : Value → Value → Act
  bi_copy to from h =
      with_kind
        (λ t.
          with_kind
            (λ f. deref (λ i x. deref (λ j y h. result (bool true) (store i (bn.copy x y) h)) f) t)
            from)
        to h

  unfoldable pub bi_abs : Value → Act
  bi_abs a h =
      with_kind (deref (λ i x. with_new (λ t. bi_allocate (record (bn.copy t x) { neg = false }))))
        a h

  -- A function of A and B that writes to R.
  abbrev pub op_to : (Bignum → Bignum → Bignum → Bignum) → Value → Value → Value → Act
  op_to f a b r h =
      with_kind
        (λ a.
          with_kind
            (λ b.
              with_kind
                (λ r.
                  deref
                    (λ i x.
                      deref (λ j y. deref (λ k z h. result (big (some k)) (store k (f z x y) h)) r)
                        b)
                    a)
                r)
            b)
        a h

  unfoldable pub bi_add_to : Value → Value → Value → Act
  bi_add_to a b r h = op_to bn.add a b r h

  unfoldable pub bi_sub_to : Value → Value → Value → Act
  bi_sub_to a b r h = op_to bn.sub a b r h

  unfoldable pub bi_mul_to : Value → Value → Value → Act
  bi_mul_to a b r h = op_to bn.mul a b r h

  abbrev pub put_or : Message → ℕ → Heap → Option Bignum → Answer
  put_or m k h none = thrown m h
  put_or m k h (some z) = result (big (some k)) (store k z h)

  -- The context is had.
  unfoldable pub bi_sqr_to : Value → Value → Act
  bi_sqr_to a r h =
      with_kind
        (λ a.
          with_kind (λ r. deref (λ i x. deref (λ k z h. put_or sqr_error k h (bn.sqr z x)) r) a) r)
        a h

  -- A function of A and B that writes to a new number.
  abbrev pub op_new : (Bignum → Bignum → Bignum → Bignum) → Value → Value → Act
  op_new f a b h =
      with_kind
        (λ a.
          with_kind (λ b. deref (λ i x. deref (λ j y. with_new (λ r. bi_allocate (f r x y))) b) a)
            b)
        a h

  unfoldable pub bi_mod : Value → Value → Act
  bi_mod a b h = op_new bn.remainder a b h

  unfoldable pub bi_mod_inverse : Value → Value → Act
  bi_mod_inverse a m h = op_new bn.mod_inverse a m h

  unfoldable pub bi_pow : Value → Value → Act
  bi_pow a b h = op_new bn.exp a b h

  unfoldable pub bi_gcd : Value → Value → Act
  bi_gcd a b h = op_new bn.gcd a b h

  unfoldable pub bi_mod_exp : Value → Value → Value → Act
  bi_mod_exp a p m h =
      with_kind
        (λ a.
          with_kind
            (λ p.
              with_kind
                (λ m.
                  deref
                    (λ i x.
                      deref
                        (λ j y. deref (λ k z. with_new (λ r. bi_allocate (bn.mod_exp r x y z))) m)
                        p)
                    a)
                m)
            p)
        a h

  unfoldable pub bi_div_rem_to : Value → Value → Value → Value → Act
  bi_div_rem_to a b dv rem h =
      with_kind
        (λ a.
          with_kind
            (λ b.
              with_kind
                (λ dv.
                  with_kind
                    (λ rem.
                      deref
                        (λ i x.
                          deref
                            (λ j y.
                              deref
                                (λ k q.
                                  deref
                                    (λ l r h.
                                      let (q', r') = bn.div q r x y in
                                      result (array_of_two k l) (store l r' (store k q' h)))
                                    rem)
                                dv)
                            b)
                        a)
                    rem)
                dv)
            b)
        a h

  unfoldable pub bi_div : Value → Value → Act
  unfolding bi_div_rem_to
  bi_div a b h =
      with_kind
        (λ p.
          with_kind
            (λ q. with_new (λ z h.
              bi_div_rem_to (big p) (big q) (big (some (length h)))
                (big (some (length (h ++ some z ∷ [])))) ((h ++ some z ∷ []) ++ some z ∷ [])))
            b)
        a h

  -- `BN_is_zero(a)`
  abbrev pub no_words : {A : Type 0} → List A → Bool
  no_words [] = true
  no_words (x ∷ xs) = false

  abbrev pub signum : Bignum → ℤ
  signum x = if no_words x.words then pos 0 else if x.neg then negsuc 0 else pos 1

  unfoldable pub bi_signum : Value → Act
  bi_signum a h = with_kind (deref (λ i x h. result (int (signum x)) h)) a h

  -- A question about two numbers, or about one.
  abbrev pub ask_two : (Bignum → Bignum → ℤ) → Value → Value → Act
  ask_two f a b h =
      with_kind (λ a. with_kind (λ b. deref (λ i x. deref (λ j y h. result (int (f x y)) h) b) a) b)
        a h

  unfoldable pub bi_cmp : Value → Value → Act
  bi_cmp a b h = ask_two bn.cmp a b h

  unfoldable pub bi_ucmp : Value → Value → Act
  bi_ucmp a b h = ask_two bn.ucmp a b h

  abbrev pub ask : (Bignum → ℤ) → Value → Act
  ask f a h = with_kind (deref (λ i x h. result (int (f x)) h)) a h

  unfoldable pub bi_is_zero : Value → Act
  bi_is_zero a h = ask (λ x. if no_words x.words then pos 1 else pos 0) a h

  unfoldable pub bi_is_one : Value → Act
  bi_is_one a h = ask bn.is_one a h

  unfoldable pub bi_is_odd : Value → Act
  bi_is_odd a h = ask bn.is_odd a h
