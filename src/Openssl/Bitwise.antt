-- ===== src/Openssl/Bitwise.antt =====
-- bi_bitwise_to and bi_not of dll_src/openssl/src/bn_neko.cpp.
use Prim.Native.Nat.{bit_and, bit_or, bit_xor}
use caffeine_hx.Common.{
  ℕ, ◌-◌, ◌^◌, true, not, List, [], ◌∷◌, Option, none, some, length, ◌==◌, ◌||◌, if◌then◌else◌,
}
use caffeine_hx.Common.Int.{ℤ, pos, negsuc}
use caffeine_hx.Openssl.{
  Bignum, Bn, Value, bool, Message, a_expand_error, b_expand_error, r_expand_error, null_pointer,
  invalid_op, Heap, Answer, result, thrown, aborted, Act, with_kind, with_int, on_number, deref,
  bi_allocate, store,
}

-- `~w` of a word
abbrev pub complement : ℕ → ℕ
complement w = 2 ^ 64 - 1 - w

-- BW_AND, BW_AND_NOT, BW_OR, BW_XOR
unfoldable pub bit_op : ℤ → Option (ℕ → ℕ → ℕ)
bit_op (negsuc n) = none
bit_op (pos n) =
    if n == 1
    then some bit_and
    else if n == 2
    then some (λ a b. bit_and a (complement b))
    else if n == 3
    then some bit_or
    else if n == 4
    then some bit_xor
    else none

-- The loop over the words of A and B, which writes to those of R.
unfoldable pub op_words : (ℕ → ℕ → ℕ) → List ℕ → List ℕ → List ℕ → List ℕ
op_words f (a ∷ xs) (b ∷ ys) (r ∷ rs) = f a b ∷ op_words f xs ys rs
op_words f _ _ rs = rs

unfoldable pub complement_words : List ℕ → List ℕ → List ℕ
complement_words (a ∷ xs) (r ∷ rs) = complement a ∷ complement_words xs rs
complement_words _ rs = rs

module _ (bn : Bn) where
  abbrev pub expanded : Message → ℕ → Act → Heap → Option Bignum → Answer
  expanded m i next h none = thrown m h
  expanded m i next h (some x) = next (store i x h)

  -- `if (bn_wexpand(p, q->top) == NULL) THROW(m)`, and what follows
  abbrev pub expand : Message → Option ℕ → Option ℕ → Act → Act
  expand m p q next h =
      deref (λ j y. deref (λ i x h. expanded m i next h (bn.wexpand x (length y.words))) p) q h

  abbrev pub fix : Option ℕ → Act → Act
  fix p next h = deref (λ i x h. next (store i (bn.fix_top x) h)) p h

  abbrev pub with_op : ℕ → Bignum → Bignum → Bignum → Act → Heap → Option (ℕ → ℕ → ℕ) → Answer
  with_op k x y z next h none = thrown invalid_op h
  with_op k x y z next h (some f) =
      next (store k (record z { words = op_words f x.words y.words z.words }) h)

  -- The loop; the operator is looked at once for each word.
  abbrev pub combined : ℤ → ℕ → Bignum → Bignum → Bignum → Act → Heap → List ℕ → Answer
  combined func k x y z next h [] = next h
  combined func k x y z next h (w ∷ ws) = with_op k x y z next h (bit_op func)

  abbrev pub combine : ℤ → Option ℕ → Option ℕ → Option ℕ → Act → Act
  combine func a b r next h =
      deref
        (λ i x.
          deref
            (λ j y.
              deref
                (λ k z h.
                  if x.dmax == 0 || y.dmax == 0 || z.dmax == 0
                  then thrown null_pointer h
                  else if length x.words == length y.words
                  then combined func k x y z next h x.words
                  else aborted)
                r)
            b)
        a h

  abbrev pub copied : Option ℕ → Option ℕ → Act → Act
  copied r a next h = deref (λ i x. deref (λ k z h. next (store k (bn.copy z x) h)) r) a h

  -- R may be A or B.
  unfoldable pub bi_bitwise_to : Value → Value → Value → Value → Act
  unfolding bit_op op_words
  bi_bitwise_to a b func r h =
      with_kind
        (λ a.
          with_kind
            (λ b.
              with_kind
                (λ r.
                  with_int
                    (λ func. copied r a (
                      expand a_expand_error a b (
                        expand b_expand_error b a (
                          expand r_expand_error r a (
                            combine func a b r
                              (fix a (fix b (fix r (λ h. result (bool true) h)))))))))
                    func)
                r)
            b)
        a h

  unfoldable pub bi_not : Value → Act
  unfolding complement_words
  bi_not a h =
      with_kind
        (deref (λ i x.
          on_number
            (λ z h.
              let r = bn.copy z x in
              bi_allocate (record r { words = complement_words x.words r.words; neg = not x.neg })
                h)
            bn.new))
        a h
