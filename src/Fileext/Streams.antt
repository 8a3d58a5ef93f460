-- ===== src/Fileext/Streams.antt =====
-- Which streams the files of dll_src/fileext/src/fileext.cpp have, and how a primitive may change them.
use caffeine_hx.Common.{
  ℕ, ◌≡◌, ◌≢◌, ◌⊎◌, ap, sym, subst, ◌∙◌, Bool-cases, true, false, inl, inr, List, Option, none,
  some, ◌==◌, arith,
}
use caffeine_hx.Common.Int.{ℤ}
use caffeine_hx.Common.Slots.{slot}
use caffeine_hx.Fileext.{Stdio, Fio}
use caffeine_hx.Fileext.Prims.{System}

module _ (e : Stdio) where
  -- Open streams stay open.
  abbrev pub Grows : e.World → e.World → Type 0
  Grows w w' = (t : ℕ) → e.is_open t w ≡ true → e.is_open t w' ≡ true

  -- A new stream is one that was not open.
  abbrev pub Opens : e.World → e.World × Option ℕ → Type 0
  Opens w (w', none) = Grows w w'
  Opens w (w', some s) = (e.is_open s w ≡ false) × (e.is_open s w' ≡ true) × Grows w w'

  -- What stdio.h says of open streams: those that fopen and tmpfile give are new, fclose closes one, and
  -- the other functions close none.
  pub record IsStdio : Type 0 where
    pub fopen_opens : (n m : List ℕ) (w : e.World) → Opens w (e.fopen n m w)
    pub tmpfile_opens : (w : e.World) → Opens w (e.tmpfile w)
    pub fclose_closes :
        (s t : ℕ) (w : e.World) → t ≢ s → e.is_open t w ≡ true → e.is_open t (e.fclose s w) ≡ true
    pub fread_grows : (s n : ℕ) (w : e.World) → Grows w (e.fread s n w).0
    pub fwrite_grows : (s : ℕ) (b : List ℕ) (w : e.World) → Grows w (e.fwrite s b w).0
    pub fflush_grows : (s : ℕ) (w : e.World) → Grows w (e.fflush s w).0
    pub fseek_grows : (s : ℕ) (a b : ℤ) (w : e.World) → Grows w (e.fseek s a b w).0
    pub ftell_grows : (s : ℕ) (w : e.World) → Grows w (e.ftell s w).0

  -- The stream of a file, if it is there and open.
  abbrev pub io_of : Option Fio → Option ℕ
  io_of none = none
  io_of (some f) = f.io

  abbrev pub stream : System e → ℕ → Option ℕ
  stream s i = io_of (slot s.files i)

  -- Each file that has a stream has one that is open, and that no other file has.
  pub record IsHeld (s : System e) : Type 0 where
    pub live : (i st : ℕ) → stream s i ≡ some st → e.is_open st s.world ≡ true
    pub single : (i j st : ℕ) → stream s i ≡ some st → stream s j ≡ some st → i ≡ j

  -- What a primitive may leave: no file gets or loses a stream; one gets a new one; one loses its stream.
  pub data Change (s : System e) : Option (System e) → Type 0 where
    stop : Change s none
    same :
        (s' : System e)
        → Grows s.world s'.world
        → ((i : ℕ) → stream s' i ≡ stream s i)
        → Change s (some s')
    more :
        (s' : System e) (n st : ℕ)
        → e.is_open st s.world ≡ false
        → e.is_open st s'.world ≡ true
        → Grows s.world s'.world
        → stream s' n ≡ some st
        → ((i : ℕ) → i ≢ n → stream s' i ≡ stream s i)
        → Change s (some s')
    less :
        (s' : System e) (n st : ℕ)
        → stream s n ≡ some st
        → ((t : ℕ) → t ≢ st → e.is_open t s.world ≡ true → e.is_open t s'.world ≡ true)
        → stream s' n ≡ none
        → ((i : ℕ) → i ≢ n → stream s' i ≡ stream s i)
        → Change s (some s')

  -- The invariant over a change, on the state that it leaves.
  abbrev pub Kept : Option (System e) → Type 0
  Kept none = Unit {0}
  Kept (some s) = IsHeld s

  pub eq_cases : (i n : ℕ) → (i ≡ n) ⊎ (i ≢ n)
  eq_cases i n = elim (Bool-cases (i == n)) [
    | inl t ↦ inl (ground (arith, t))
    | inr t ↦ inr (ground (arith, t))
  ]

  -- A stream that a file other than n has now was there before.
  before :
      (s s' : System e) (n i t : ℕ)
      → ((i : ℕ) → i ≢ n → stream s' i ≡ stream s i)
      → i ≢ n
      → stream s' i ≡ some t
      → stream s i ≡ some t
  before s s' n i t others ne a = sym (others i ne) ∙ a

  more-Kept :
      (s s' : System e) (n st : ℕ)
      → e.is_open st s.world ≡ false
      → e.is_open st s'.world ≡ true
      → Grows s.world s'.world
      → stream s' n ≡ some st
      → ((i : ℕ) → i ≢ n → stream s' i ≡ stream s i)
      → IsHeld s
      → IsHeld s'
  more-Kept s s' n st fresh is_new grow at others h = record {
    live = λ i t a. elim (eq_cases i n) [
      | inl p ↦ subst (λ u. e.is_open u s'.world ≡ true) (same_stream i t p a) is_new
      | inr q ↦ grow t (h.live i t (before s s' n i t others q a))
    ];
    single = λ i j t a b. elim (eq_cases i n) [
      | inl p ↦ elim (eq_cases j n) [
        | inl q ↦ p ∙ sym q
        | inr q ↦ clash j t q b (same_stream i t p a)
      ]
      | inr p ↦ elim (eq_cases j n) [
        | inl q ↦ clash i t p a (same_stream j t q b)
        | inr q ↦ h.single i j t (before s s' n i t others p a) (before s s' n j t others q b)
      ]
    ];
  }
    where
      same_stream : (i t : ℕ) → i ≡ n → stream s' i ≡ some t → st ≡ t
      same_stream i t p a = cc

      clash : {A : Type 0} → (i t : ℕ) → i ≢ n → stream s' i ≡ some t → st ≡ t → A
      clash i t q a p =
          let was : e.is_open t s.world ≡ true = h.live i t (before s s' n i t others q a) in cc

  less-Kept :
      (s s' : System e) (n st : ℕ)
      → stream s n ≡ some st
      → ((t : ℕ) → t ≢ st → e.is_open t s.world ≡ true → e.is_open t s'.world ≡ true)
      → stream s' n ≡ none
      → ((i : ℕ) → i ≢ n → stream s' i ≡ stream s i)
      → IsHeld s
      → IsHeld s'
  less-Kept s s' n st at grow gone others h = record {
    live = λ i t a.
        let was = before s s' n i t others (other i t a) a in
        grow t (λ p. other i t a (h.single i n t was (at ∙ ap some (sym p)))) (h.live i t was);
    single = λ i j t a b.
        h.single i j t (before s s' n i t others (other i t a) a)
          (before s s' n j t others (other j t b) b);
  }
    where
      other : (i t : ℕ) → stream s' i ≡ some t → i ≢ n
      other i t a = λ p. cc

  pub Change-Kept : (s : System e) (r : Option (System e)) → Change s r → IsHeld s → Kept r
  Change-Kept s _ stop h = tt
  Change-Kept s _ (same s' grow eq) h = record {
    live = λ i st a. grow st (h.live i st (sym (eq i) ∙ a));
    single = λ i j st a b. h.single i j st (sym (eq i) ∙ a) (sym (eq j) ∙ b);
  }
  Change-Kept s _ (more s' n st fresh is_new grow at others) h =
      more-Kept s s' n st fresh is_new grow at others h
  Change-Kept s _ (less s' n st at grow gone others) h = less-Kept s s' n st at grow gone others h
