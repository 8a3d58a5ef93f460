-- ===== src/Openssl/Live.antt =====
-- Values of dll_src/openssl/src/bn_neko.cpp whose number is not freed.
use caffeine_hx.Common.{
  ℕ, ◌≡◌, inl, inr, refl, subst, ◌∙◌, Bool, Bool-cases, true, List, [], ◌∷◌, ◌++◌, Option, none,
  some, length, ◌==◌, arith,
}
use caffeine_hx.Common.Int.{ℤ}
use caffeine_hx.Common.Slots.{
  slot, slot-lt, slot-set_within, slot-set_other, slot-append_keeps, slot-append_last,
}
use caffeine_hx.Openssl.{
  Bignum, Value, null, int, bool, string, big, array_of_two, other_value, Message, Heap, Answer,
  result, thrown, neko_error, undefined, aborted, Act, with_kind, with_int, with_string, on_number,
  deref, bi_allocate, store,
}

-- There is a number at a place.
abbrev pub At : Heap → ℕ → Type 0
At h i = (x : Bignum) × (slot h i ≡ some x)

-- A big integer's number is there; other values have none.
abbrev pub IsLive : Heap → Value → Type 0
IsLive h (big none) = ⊥
IsLive h (big (some i)) = At h i
IsLive h (array_of_two i j) = At h i × At h j
IsLive h _ = Unit {0}

abbrev pub Stays : Heap → Heap → Type 0
Stays h h' = (i : ℕ) → At h i → At h' i

-- The answer is no misuse of memory and no failed assertion; its value is live, and all numbers stay.
unfoldable pub IsGood : Heap → Answer → Type 0
IsGood h (result v h') = IsLive h' v × Stays h h'
IsGood h (thrown m h') = Stays h h'
IsGood h (neko_error h') = Stays h h'
IsGood h undefined = ⊥
IsGood h aborted = ⊥

pub with_kind-IsGood :
    (use_pointer : Option ℕ → Act) (v : Value) (h : Heap)
    → IsLive h v
    → ((p : Option ℕ) → IsLive h (big p) → IsGood h (use_pointer p h))
    → IsGood h (with_kind use_pointer v h)
unfolding IsGood
with_kind-IsGood use_pointer (big p) h live each = each p live
with_kind-IsGood use_pointer null h live each = λ i a. a
with_kind-IsGood use_pointer (int n) h live each = λ i a. a
with_kind-IsGood use_pointer (bool b) h live each = λ i a. a
with_kind-IsGood use_pointer (string s) h live each = λ i a. a
with_kind-IsGood use_pointer (array_of_two i j) h live each = λ i a. a
with_kind-IsGood use_pointer other_value h live each = λ i a. a

pub with_int-IsGood :
    (use_int : ℤ → Act) (v : Value) (h : Heap)
    → ((n : ℤ) → IsGood h (use_int n h))
    → IsGood h (with_int use_int v h)
unfolding IsGood
with_int-IsGood use_int (int n) h each = each n
with_int-IsGood use_int null h each = λ i a. a
with_int-IsGood use_int (big p) h each = λ i a. a
with_int-IsGood use_int (bool b) h each = λ i a. a
with_int-IsGood use_int (string s) h each = λ i a. a
with_int-IsGood use_int (array_of_two i j) h each = λ i a. a
with_int-IsGood use_int other_value h each = λ i a. a

pub with_string-IsGood :
    (use_string : List ℕ → Act) (v : Value) (h : Heap)
    → ((s : List ℕ) → IsGood h (use_string s h))
    → IsGood h (with_string use_string v h)
unfolding IsGood
with_string-IsGood use_string (string s) h each = each s
with_string-IsGood use_string null h each = λ i a. a
with_string-IsGood use_string (int n) h each = λ i a. a
with_string-IsGood use_string (big p) h each = λ i a. a
with_string-IsGood use_string (bool b) h each = λ i a. a
with_string-IsGood use_string (array_of_two i j) h each = λ i a. a
with_string-IsGood use_string other_value h each = λ i a. a

pub on_number-IsGood :
    (use_number : Bignum → Act) (h : Heap) (o : Option Bignum) (x : Bignum)
    → o ≡ some x
    → IsGood h (use_number x h)
    → IsGood h (on_number use_number o h)
on_number-IsGood use_number h o x p good = rw p good

pub deref-IsGood :
    (use_number : ℕ → Bignum → Act) (p : Option ℕ) (h : Heap)
    → IsLive h (big p)
    → ((i : ℕ) (x : Bignum) → At h i → IsGood h (use_number i x h))
    → IsGood h (deref use_number p h)
deref-IsGood use_number none h live each = absurd live
deref-IsGood use_number (some i) h (x, there) each =
    on_number-IsGood (use_number i) h (slot h i) x there (each i x (x, there))

pub store-Stays : (h : Heap) (k : ℕ) (y : Bignum) → At h k → Stays h (store k y h)
store-Stays h k y (z, there) i (x, p) = elim (Bool-cases (k == i)) [
  | inl t ↦
      let same : k ≡ i = ground (arith, t) in
      (
        y,
        subst (λ i. slot (store k y h) i ≡ some y) same
            (slot-set_within h k (some y) (slot-lt h k there)),
      )
  | inr t ↦ (x, slot-set_other h k i (some y) (ground (arith, t)) ∙ p)
]

pub allocate-Stays : (h : Heap) (x : Bignum) → Stays h (h ++ some x ∷ [])
allocate-Stays h x i (y, p) = (y, slot-append_keeps h (some x) i p)

pub bi_allocate-IsGood : (h : Heap) (x : Bignum) → IsGood h (bi_allocate x h)
unfolding IsGood
bi_allocate-IsGood h x = ((x, slot-append_last h (some x) (length h) refl), allocate-Stays h x)

pub stored-IsGood :
    (h : Heap) (k : ℕ) (y : Bignum) → At h k → IsGood h (result (big (some k)) (store k y h))
unfolding IsGood
stored-IsGood h k y there = (store-Stays h k y there k there, store-Stays h k y there)

pub changed-IsGood :
    (h : Heap) (k : ℕ) (y : Bignum) → At h k → IsGood h (result (bool true) (store k y h))
unfolding IsGood
changed-IsGood h k y there = (tt, store-Stays h k y there)

pub thrown-IsGood : (h : Heap) (m : Message) → IsGood h (thrown m h)
unfolding IsGood
thrown-IsGood h m = λ i a. a

pub int-IsGood : (h : Heap) (n : ℤ) → IsGood h (result (int n) h)
unfolding IsGood
int-IsGood h n = (tt, λ i a. a)

pub string-IsGood : (h : Heap) (s : List ℕ) → IsGood h (result (string s) h)
unfolding IsGood
string-IsGood h s = (tt, λ i a. a)

pub bool-IsGood : (h : Heap) (b : Bool) → IsGood h (result (bool b) h)
unfolding IsGood
bool-IsGood h b = (tt, λ i a. a)

-- A good answer on a heap with more numbers is good.
pub IsGood-Stays : (h h' : Heap) (r : Answer) → Stays h h' → IsGood h' r → IsGood h r
unfolding IsGood
IsGood-Stays h h' (result v h'') s (live, t) = (live, λ i a. t i (s i a))
IsGood-Stays h h' (thrown m h'') s t = λ i a. t i (s i a)
IsGood-Stays h h' (neko_error h'') s t = λ i a. t i (s i a)
IsGood-Stays h h' undefined s t = t
IsGood-Stays h h' aborted s t = t

pub IsLive-Stays : (h h' : Heap) (p : Option ℕ) → Stays h h' → IsLive h (big p) → IsLive h' (big p)
IsLive-Stays h h' none s live = live
IsLive-Stays h h' (some i) s live = s i live

-- Primitives of three big integers, of two, and of one
abbrev pub Three : (Value → Value → Value → Act) → Type 0
Three f = (a b r : Value) (h : Heap) → IsLive h a → IsLive h b → IsLive h r → IsGood h (f a b r h)

abbrev pub Two : (Value → Value → Act) → Type 0
Two f = (a b : Value) (h : Heap) → IsLive h a → IsLive h b → IsGood h (f a b h)

abbrev pub One : (Value → Act) → Type 0
One f = (a : Value) (h : Heap) → IsLive h a → IsGood h (f a h)
