-- ===== src/Crypt/Tea/Inverse.antt =====
-- Decryption of xxtea (dll_src/crypt/src/tea.cpp) against encryption, by one step on a circle of words.
use caffeine_hx.Common.{
  ℕ, zero, suc, ◌+◌, ◌-◌, ◌≤◌, ◌<◌, ◌≡◌, refl, ap, ◌∙◌, subst, List, length, set, length-set,
  get_or-set_self, get_or-set_ne, set-set, set-get_or, set_ge, tests, ltb, ◌==◌, if◌then◌else◌,
  arith, Bool-cases, inl, inr,
}
use caffeine_hx.Common.Words.{word_mod, add_word, sub_word, add_word-lt, sub_word-add_word}
use caffeine_hx.Crypt.Tea.{
  word_at, mx, key_of, encrypt_words, encrypt_cycle, decrypt_words, decrypt_cycle,
}

abbrev pub IsWords : List ℕ → Type 0
IsWords v = (i : ℕ) → word_at v i < word_mod

set-IsWords : (v : List ℕ) (i w : ℕ) → IsWords v → w < word_mod → IsWords (set v i w)
set-IsWords v i w h l j = elim (Bool-cases (i == j)) [
  | inl same ↦
      let e : i ≡ j = ground arith in
      elim (Bool-cases (ltb i (length v))) [
        | inl within ↦
            subst (λ x. word_at (set v i w) x < word_mod) e
              (rw (get_or-set_self v i w 0 (omega tests)) l)
        | inr above ↦ rw (set_ge v i w (ground arith)) (h j)
      ]
  | inr other ↦ rw (get_or-set_ne v i j w 0 (ground arith)) (h j)
]

-- The neighbours on the circle of `n` words.
abbrev prev : ℕ → ℕ → ℕ
prev n i = if i == 0 then n - 1 else i - 1

abbrev next : ℕ → ℕ → ℕ
next n i = if i + 1 == n then 0 else i + 1

module _ (k : List ℕ) (sum n : ℕ) where
  abbrev term : ℕ → List ℕ → ℕ
  term i v = mx k (word_at v (prev n i)) (word_at v (next n i)) sum i (key_of sum)

  -- The word `i` is moved by its neighbours, and moved back.
  bump : ℕ → List ℕ → List ℕ
  bump i v = set v i (add_word (word_at v i) (term i v))

  unbump : ℕ → List ℕ → List ℕ
  unbump i v = set v i (sub_word (word_at v i) (term i v))

  term-set : (i w : ℕ) (v : List ℕ) → 2 ≤ n → i < n → term i (set v i w) ≡ term i v
  term-set i w v h l =
      rw
        (
          get_or-set_ne v i (prev n i) w 0 (ground arith),
          get_or-set_ne v i (next n i) w 0 (ground arith),
        )
        refl

  unbump-bump :
      (i : ℕ) (v : List ℕ) → length v ≡ n → 2 ≤ n → i < n → IsWords v → unbump i (bump i v) ≡ v
  unfolding unbump bump
  unbump-bump i v e h l words =
      let w = add_word (word_at v i) (term i v) in
      rw
        (
          get_or-set_self v i w 0 (omega (arith, e)),
          term-set i w v h l,
          sub_word-add_word (word_at v i) (term i v) (words i),
          set-set v i w (word_at v i),
        )
        (set-get_or v i 0)

  -- The words from 0 up to `c`, and back.
  forward : ℕ → List ℕ → List ℕ
  forward zero v = v
  forward (suc c) v = bump c (forward c v)

  backward : ℕ → List ℕ → List ℕ
  backward zero v = v
  backward (suc c) v = backward c (unbump c v)

  forward_next : (c : ℕ) (v : List ℕ) → forward (c + 1) v ≡ bump c (forward c v)
  unfolding forward
  forward_next c v = let e : c + 1 ≡ suc c = omega arith in rw e refl

  forward_all : (v : List ℕ) → 1 ≤ n → forward n v ≡ bump (n - 1) (forward (n - 1) v)
  forward_all v h =
      let e : n ≡ n - 1 + 1 = omega arith in ap (λ x. forward x v) e ∙ forward_next (n - 1) v

  length-forward : (c : ℕ) (v : List ℕ) → length (forward c v) ≡ length v
  unfolding forward bump
  length-forward zero v = refl
  length-forward (suc c) v = length-set (forward c v) c _ ∙ length-forward c v

  forward-IsWords : (c : ℕ) (v : List ℕ) → IsWords v → IsWords (forward c v)
  unfolding forward bump
  forward-IsWords zero v h = h
  forward-IsWords (suc c) v h =
      set-IsWords (forward c v) c _ (forward-IsWords c v h) (add_word-lt _ _)

  backward-forward :
      (c : ℕ) (v : List ℕ) → length v ≡ n → 2 ≤ n → c ≤ n → IsWords v → backward c (forward c v) ≡ v
  unfolding forward backward
  backward-forward zero v e h l words = refl
  backward-forward (suc c) v e h l words =
      rw
        (unbump-bump c (forward c v) (length-forward c v ∙ e) h (omega arith)
          (forward-IsWords c v words))
        (backward-forward c v e h (omega arith) words)

  -- The loops of the code.
  encrypt_words-forward :
      (left p z : ℕ) (u v : List ℕ)
      → length v ≡ n
      → p + left < n
      → u ≡ forward p v
      → z ≡ word_at u (prev n p)
      → encrypt_words k sum left p z u
        ≡ (word_at (forward (p + left) v) (prev n (p + left)), forward (p + left) v)
  unfolding encrypt_words
  encrypt_words-forward zero p z u v e h a b =
      let stop : p + 0 ≡ p = omega arith in rw (stop, b, a) refl
  encrypt_words-forward (suc left) p z u v e h a b =
      let w = add_word (word_at u p) (mx k z (word_at u (p + 1)) sum p (key_of sum)) in
      let at : next n p ≡ p + 1 = ground arith in
      let back : prev n (p + 1) ≡ p = ground arith in
      let size : length u ≡ n = rw a (length-forward p v ∙ e) in
      let sum_is : p + suc left ≡ p + 1 + left = omega arith in
      rw sum_is (
        encrypt_words-forward left (p + 1) w (set u p w) v e (omega arith)
          (rw (forward_next p v, ← a) (unfold bump in rw (at, b) refl))
          (rw (back, get_or-set_self u p w 0 (omega (arith, size))) refl))

  encrypt_cycle-forward :
      (v : List ℕ)
      → length v ≡ n
      → 2 ≤ n
      → encrypt_cycle k n sum (word_at v (n - 1)) v ≡ (word_at (forward n v) (n - 1), forward n v)
  unfolding encrypt_cycle
  encrypt_cycle-forward v e h =
      let u = forward (n - 1) v in
      let start : 0 + (n - 1) ≡ n - 1 = omega arith in
      let at : next n (n - 1) ≡ 0 = ground arith in
      let size : length u ≡ n = length-forward (n - 1) v ∙ e in
      let words =
        encrypt_words-forward (n - 1) 0 (word_at v (n - 1)) v v e (omega arith)
          (unfold forward in refl) refl in
      let w = add_word (word_at u (n - 1)) (term (n - 1) u) in
      rw (words, start, forward_all v (omega arith))
        (unfold bump in rw (get_or-set_self u (n - 1) w 0 (omega (arith, size)), at) refl)

  decrypt_words-backward :
      (p y : ℕ) (v : List ℕ)
      → length v ≡ n
      → p < n
      → y ≡ word_at v (next n p)
      → let r = decrypt_words k sum p y v in
        (unbump 0 r.1 ≡ backward (suc p) v) × (r.0 ≡ word_at r.1 (next n 0)) × (length r.1 ≡ n)
  unfolding decrypt_words backward
  decrypt_words-backward zero y v e h a = (refl, a, e)
  decrypt_words-backward (suc p) y v e h a =
      let w = sub_word (word_at v (suc p)) (mx k (word_at v p) y sum (suc p) (key_of sum)) in
      let at : next n p ≡ suc p = ground arith in
      let size : length (set v (suc p) w) ≡ n = length-set v (suc p) w ∙ e in
      let r =
        decrypt_words-backward p w (set v (suc p) w) size (omega arith)
          (rw (at, get_or-set_self v (suc p) w 0 (omega (arith, e))) refl) in
      let back : prev n (suc p) ≡ p = ground arith in
      let here : set v (suc p) w ≡ unbump (suc p) v = unfold unbump in rw (back, a) refl in
      (r.0 ∙ ap (backward (suc p)) here, r.1, r.2)

  decrypt_cycle-backward :
      (y : ℕ) (v : List ℕ)
      → length v ≡ n
      → 2 ≤ n
      → y ≡ word_at v 0
      → decrypt_cycle k n sum y v ≡ (word_at (backward n v) 0, backward n v)
  unfolding decrypt_cycle
  decrypt_cycle-backward y v e h a =
      let at : next n (n - 1) ≡ 0 = ground arith in
      let whole : suc (n - 1) ≡ n = omega arith in
      let r = decrypt_words-backward (n - 1) y v e (omega arith) (rw at a) in
      let u = (decrypt_words k sum (n - 1) y v).1 in
      let w = sub_word (word_at u 0) (term 0 u) in
      let all : unbump 0 u ≡ backward n v = r.0 ∙ ap (λ x. backward x v) whole in
      rw (← all) (unfold unbump in rw (get_or-set_self u 0 w 0 (omega (arith, r.2)), r.1) refl)

  -- A cycle of decryption undoes one of encryption.
  pub decrypt_cycle-encrypt_cycle :
      (v : List ℕ)
      → length v ≡ n
      → 2 ≤ n
      → IsWords v
      → let r = encrypt_cycle k n sum (word_at v (n - 1)) v in
        decrypt_cycle k n sum (word_at r.1 0) r.1 ≡ (word_at v 0, v)
  decrypt_cycle-encrypt_cycle v e h words =
      rw
        (
          encrypt_cycle-forward v e h,
          decrypt_cycle-backward (word_at (forward n v) 0) (forward n v) (length-forward n v ∙ e) h
              refl,
          backward-forward n v e h (omega arith) words,
        )
        refl

  -- A cycle keeps the number of words, their range, and `z` the last word.
  pub encrypt_cycle_keeps :
      (v : List ℕ)
      → length v ≡ n
      → 2 ≤ n
      → IsWords v
      → let r = encrypt_cycle k n sum (word_at v (n - 1)) v in
        (length r.1 ≡ n) × IsWords r.1 × (r.0 ≡ word_at r.1 (n - 1))
  encrypt_cycle_keeps v e h words =
      rw (encrypt_cycle-forward v e h) (length-forward n v ∙ e, forward-IsWords n v words, refl)
