-- ===== src/Hash/Value/Ends.antt =====
-- The depth of neko_sha1 (dll_src/hash/src/sha1_lua_neko.c): the objects and arrays of the heap that
-- are not on its stack yet.
use caffeine_hx.Common.{
  ℕ, zero, suc, ◌+◌, ◌*◌, ◌%◌, ◌^◌, ◌≤◌, ◌<◌, ◌≡◌, refl, subst, Bool-cases, ◌⊎◌, inl, inr, Bool,
  true, false, List, [], ◌∷◌, Option, none, some, length, get_elem?, ◌==◌, if◌then◌else◌, arith,
}
use caffeine_hx.Hash.Sha1.Context.{Context, sha1_init, sha1_final}
use caffeine_hx.Hash.Value.{
  Value, pointer, Cell, object, array, Heap, Stack, position, push, each, each_down, sha1_uint32,
  visit, neko_sha1, nsha1,
}

abbrev pub All : {A : Type 0} → (A → Type 0) → List A → Type 0
All p [] = Unit
All p (x ∷ xs) = p x × All p xs

-- Addresses are below `n`.
abbrev pub IsClosed : ℕ → Value → Type 0
IsClosed n (pointer a) = a < n
IsClosed n _ = Unit

abbrev pub IsClosedCell : ℕ → Cell → Type 0
IsClosedCell n (object fields none) = All (λ f. IsClosed n f.1) fields
IsClosedCell n (object fields (some proto)) = All (λ f. IsClosed n f.1) fields × (proto < n)
IsClosedCell n (array values) = All (IsClosed n) values

abbrev is_some : {A : Type 0} → Option A → Bool
is_some none = false
is_some (some a) = true

-- Whether an address is on the stack, and how many below `n` are not.
abbrev seen : Stack → ℕ → Bool
seen s a = is_some (position s a)

abbrev unseen : Stack → ℕ → ℕ
unseen s zero = 0
unseen s (suc n) = let rest = unseen s n in if seen s n then rest else suc rest

seen-push : (a : ℕ) (s : Stack) (i : ℕ) → seen (push a s) i ≡ (if a == i then true else seen s i)
unfolding position push
seen-push a [] i = ground arith
seen-push a ((p, b) ∷ s) i = ground arith

unseen-push_above : (a n : ℕ) (s : Stack) → n ≤ a → unseen (push a s) n ≡ unseen s n
unseen-push_above a zero s h = refl
unseen-push_above a (suc n) s h =
    let e = unseen-push_above a n s (omega arith) in
    let other : (a == n) ≡ false = ground arith in rw (seen-push a s n, other, e) refl

unseen-push :
    (a n : ℕ) (s : Stack) → seen s a ≡ false → a < n → suc (unseen (push a s) n) ≡ unseen s n
unseen-push a zero s e h = absurd (omega arith)
unseen-push a (suc n) s e h = elim (Bool-cases (a == n)) [
  | inl here ↦
      let at : a ≡ n = ground arith in
      let fresh : seen s n ≡ false = subst (λ x. seen s x ≡ false) at e in
      rw (seen-push a s n, here, fresh, unseen-push_above a n s (omega (arith, at))) refl
  | inr other ↦
      let less : a < n = ground arith in
      let rest = unseen-push a n s e less in rw (seen-push a s n, other) (ground (arith, rest))
]

unseen-le : (n : ℕ) (s : Stack) → unseen s n ≤ n
unseen-le zero s = omega arith
unseen-le (suc n) s = let h = unseen-le n s in ground arith

Option-cases : {A : Type 0} → (o : Option A) → (o ≡ none) ⊎ ((a : A) × (o ≡ some a))
Option-cases none = inl refl
Option-cases (some a) = inr (a, refl)

get_elem?-All :
    {A : Type 0}
    → (p : A → Type 0) (xs : List A) (i : ℕ) → All p xs
    → i < length xs
    → (x : A) × (get_elem? xs i ≡ some x) × p x
get_elem?-All p [] i h l = absurd (omega arith)
get_elem?-All p (x ∷ xs) zero h l = (x, refl, h.0)
get_elem?-All p (x ∷ xs) (suc i) h l = get_elem?-All p xs i h.1 (omega arith)

-- A step that gives a context wherever `p` holds.
abbrev pub Gives : {A : Type 0} → (A → Type 0) → (Context → A → Option Context) → Type 0
Gives p f = (c : Context) (x : _) → p x → (c' : Context) × (f c x ≡ some c')

each-Gives :
    {A : Type 0}
    → (p : A → Type 0) (f : Context → A → Option Context) (c : Context) (xs : List A) → Gives p f
    → All p xs
    → (c' : Context) × (each f c xs ≡ some c')
unfolding each
each-Gives p f c [] g h = (c, refl)
each-Gives p f c (x ∷ xs) g h =
    let (c1, e) = g c x h.0 in let (c2, e') = each-Gives p f c1 xs g h.1 in (c2, rw e e')

each_down-Gives :
    {A : Type 0}
    → (p : A → Type 0) (f : Context → A → Option Context) (c : Context) (xs : List A) → Gives p f
    → All p xs
    → (c' : Context) × (each_down f c xs ≡ some c')
unfolding each_down
each_down-Gives p f c [] g h = (c, refl)
each_down-Gives p f c (x ∷ xs) g h =
    let (c1, e) = each_down-Gives p f c xs g h.1 in let (c2, e') = g c1 x h.0 in (c2, rw e e')

module _ (machine_le : Bool) where
  visit-ends :
      (n : ℕ) (rec : Context → Value → Option Context) (c : Context) (cell : Cell)
      → Gives (IsClosed n) rec
      → IsClosedCell n cell
      → (c' : Context) × (visit machine_le rec c cell ≡ some c')
  unfolding visit
  visit-ends n rec c (object fields none) g h =
      each-Gives (λ f. IsClosed n f.1) (λ c' f. rec (sha1_uint32 machine_le c' f.0) f.1) c fields
        (λ c' f. g (sha1_uint32 machine_le c' f.0) f.1) h
  visit-ends n rec c (object fields (some proto)) g h =
      let (c1, e) =
        each-Gives (λ f. IsClosed n f.1) (λ c' f. rec (sha1_uint32 machine_le c' f.0) f.1) c fields
          (λ c' f. g (sha1_uint32 machine_le c' f.0) f.1) h.0 in
      let (c2, e') = g c1 (pointer proto) h.1 in (c2, rw e e')
  visit-ends n rec c (array values) g h = each_down-Gives (IsClosed n) rec _ values g h

  -- neko_sha1 of a value with its addresses in a heap that has its own: fuel for one entry more than
  -- the cells that are not on the stack is enough, and no address is missed.
  pub neko_sha1-ends :
      (heap : Heap)
      → All (IsClosedCell (length heap)) heap
      → (fuel : ℕ) (c : Context) (v : Value) (s : Stack) → IsClosed (length heap) v
      → unseen s (length heap) < fuel
      → (c' : Context) × (neko_sha1 machine_le fuel heap c v s ≡ some c')
  unfolding neko_sha1
  neko_sha1-ends heap closed zero c v s h l = absurd (omega arith)
  neko_sha1-ends heap closed (suc fuel) c (pointer a) s h l = elim (Option-cases (position s a)) [
    | inr (p, e) ↦ (sha1_uint32 machine_le c ((p * 8) % 2 ^ 32 + 2), rw (e, neko_sha1) refl)
    | inl e ↦
        let (cell, at, here) = get_elem?-All (IsClosedCell (length heap)) heap a closed h in
        let less = unseen-push a (length heap) s (rw e refl) h in
        let (c', r) =
          visit-ends (length heap) (λ c' v. neko_sha1 machine_le fuel heap c' v (push a s)) c cell
            (λ c' v k. neko_sha1-ends heap closed fuel c' v (push a s) k (omega (arith, less)))
            here in
        (c', rw (e, at, neko_sha1) r)
  ]
  neko_sha1-ends heap closed (suc fuel) c _ s h l = (_, refl)

  -- nsha1 of a value, whose addresses and those in the heap are addresses of it, ends and gives a
  -- digest, also where objects and arrays refer to each other in cycles.
  pub nsha1-ends :
      (held : List ℕ) (heap : Heap) (v : Value)
      → All (IsClosedCell (length heap)) heap
      → IsClosed (length heap) v
      → (digest : List ℕ) × (nsha1 machine_le held heap v ≡ some digest)
  unfolding nsha1
  nsha1-ends held heap v closed h =
      let (c, e) =
        neko_sha1-ends heap closed (length heap + 1) (sha1_init machine_le held) v [] h
          (omega (arith, unseen-le (length heap) [])) in
      ((sha1_final machine_le c).0, rw e refl)
