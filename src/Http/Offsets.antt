-- ===== src/Http/Offsets.antt =====
-- The offsets of the parser while http_parser_execute runs with the callbacks of http11neko.c.
use caffeine_hx.Common.{
  ℕ, zero, suc, ◌+◌, ◌≤◌, ◌<◌, ◌≡◌, ◌≢◌, refl, ◌⊎◌, inl, inr, Bool, true, false, [], ◌∷◌, Option,
  none, some, length, get_elem?-lt, set, length-set, arith, ◌∙◌,
}
use caffeine_hx.Http.Dispatch.{dispatch}
use caffeine_hx.Http.Execute.{
  Machine, Jump, halt, next, Outcome, returned, perform, loop, set_query_start,
}
use caffeine_hx.Http.Neko.{Key, Script, Object, callbacks, on_field, on_element}
use caffeine_hx.Http.State.{
  State, st1, st53, Target, st, tr17, tr19, tr22, tr25, tr28, tr31, tr33, tr34, tr36, tr39, tr40,
  tr41,
}

-- State 53 is entered by the action that ends the headers, never by a plain jump.
dispatch-ne-st53 : (s : State) (c : ℕ) → dispatch s c ≢ st st53
unfolding dispatch
dispatch-ne-st53 State.st0 c = ground arith
dispatch-ne-st53 _ c = ground arith

-- What holds at index `p` of a buffer of `k` bytes, of which `pe` are parsed, before the end of the
-- headers: the marks are set to bytes already read, and no object is delivered.
pub record Inside (pe k p : ℕ) (m : Machine Script) : Type 0 where
  pub mark_le : m.parser.mark ≤ p
  pub mark_lt : m.parser.mark < pe
  pub start_le : m.parser.field_start ≤ p
  pub start_lt : m.parser.field_start < pe
  pub len_le : m.parser.field_len ≤ pe
  pub no_body : m.parser.body_start ≡ 0
  pub nothing_read : m.parser.nread ≡ 0
  pub size : length m.env.buffer ≡ k
  pub none_called : m.env.world.called ≡ []
  pub has_object : m.env.world.neko_val ≢ none

-- What holds when the headers have ended at index `p`.
pub record Done (pe k p : ℕ) (m : Machine Script) : Type 0 where
  pub mark_lt : m.parser.mark < pe
  pub start_lt : m.parser.field_start < pe
  pub len_le : m.parser.field_len ≤ pe
  pub body : m.parser.body_start ≡ p + 1
  pub nothing_read : m.parser.nread ≡ 0
  pub one_called : (o : Object) × (m.env.world.called ≡ o ∷ [])

-- The states inside the text of a query
abbrev pub is_query : State → Bool
is_query State.st31 = true
is_query State.st32 = true
is_query State.st33 = true
is_query _ = false

-- Inside a query, query_start is at most the index.
abbrev pub QueryStarts : State → ℕ → Machine Script → Type 0
QueryStarts s p m = (is_query s ≡ false) ⊎ (m.parser.query_start ≤ p)

abbrev goes_on : Target → Bool
goes_on (st s) = is_query s
goes_on tr28 = true
goes_on _ = false

-- The end of a query, and a plain jump to a state inside one, come from such a state.
dispatch-goes_on : (s : State) (c : ℕ) → (goes_on (dispatch s c) ≡ false) ⊎ (is_query s ≡ true)
unfolding dispatch
dispatch-goes_on State.st0 c = inl (ground arith)
dispatch-goes_on State.st31 c = inr refl
dispatch-goes_on State.st32 c = inr refl
dispatch-goes_on State.st33 c = inr refl
dispatch-goes_on _ c = inl (ground arith)

dispatch-started :
    (s : State) (c p q : ℕ)
    → (is_query s ≡ false) ⊎ (q ≤ p)
    → (goes_on (dispatch s c) ≡ false) ⊎ (q ≤ p)
dispatch-started s c p q (inr l) = inr l
dispatch-started s c p q (inl h) = elim (dispatch-goes_on s c) [
  | inl e ↦ inl e
  | inr k ↦ absurd (ground arith)
]

-- The three ways in which the loop ends: refused at a byte, out of bytes, or with the headers read.
abbrev pub Ends : ℕ → ℕ → State → ℕ → Machine Script → Type 0
Ends pe k s p m =
    (Inside pe k p m × (s ≡ st1) × (p < pe))
    ⊎ (Inside pe k p m × (s ≢ st1) × (s ≢ st53) × (p ≡ pe) × QueryStarts s p m)
    ⊎ (Done pe k p m × (s ≡ st53) × (p < pe))

abbrev After : ℕ → ℕ → ℕ → Jump Script → Type 0
After pe k p (halt s m) = Ends pe k s p m
After pe k p (next s m) = (s ≢ st1) × (s ≢ st53) × Inside pe k (p + 1) m × QueryStarts s (p + 1) m

-- A callback of the binding keeps all of it.
module _ (pe k : ℕ) {p : ℕ} {m : Machine Script} where
  on_element-Inside :
      (key : Key) (at n : ℕ)
      → Inside pe k p m
      → Inside pe k p (record m { env = on_element key at n m.env })
  unfolding on_element
  on_element-Inside key at n i = record {
    mark_le = i.mark_le;
    mark_lt = i.mark_lt;
    start_le = i.start_le;
    start_lt = i.start_lt;
    len_le = i.len_le;
    no_body = i.no_body;
    nothing_read = i.nothing_read;
    size = length-set m.env.buffer (at + n) 0 ∙ i.size;
    none_called = i.none_called;
    has_object = ground arith;
  }

  on_field-Inside :
      (f n v l : ℕ) → Inside pe k p m → Inside pe k p (record m { env = on_field f n v l m.env })
  unfolding on_field
  on_field-Inside f n v l i = record {
    mark_le = i.mark_le;
    mark_lt = i.mark_lt;
    start_le = i.start_le;
    start_lt = i.start_lt;
    len_le = i.len_le;
    no_body = i.no_body;
    nothing_read = i.nothing_read;
    size =
        length-set (set m.env.buffer (f + n) 0) (v + l) 0
        ∙ length-set m.env.buffer (f + n) 0
        ∙ i.size;
    none_called = i.none_called;
    has_object = ground arith;
  }

  Inside-suc : Inside pe k p m → Inside pe k (p + 1) m
  Inside-suc i = ground arith

  Inside-set_query_start : Inside pe k p m → Inside pe k p (set_query_start p m)
  Inside-set_query_start i = ground arith

perform-After :
    (pe k : ℕ) (t : Target) (p : ℕ) (m : Machine Script)
    → t ≢ st st53
    → p < pe
    → Inside pe k p m
    → (goes_on t ≡ false) ⊎ (m.parser.query_start ≤ p)
    → After pe k p (perform callbacks pe t p m)
unfolding perform callbacks
perform-After pe k tr17 p m h l i q =
    (ground arith, ground arith, Inside-suc pe k (on_element-Inside pe k _ _ _ i), inl refl)
perform-After pe k tr19 p m h l i q =
    (ground arith, ground arith, Inside-suc pe k (on_element-Inside pe k _ _ _ i), inl refl)
perform-After pe k tr22 p m h l i q =
    (ground arith, ground arith, Inside-suc pe k (on_element-Inside pe k _ _ _ i), inl refl)
perform-After pe k tr33 p m h l i q =
    (ground arith, ground arith, Inside-suc pe k (on_element-Inside pe k _ _ _ i), inl refl)
perform-After pe k tr34 p m h l i q =
    (ground arith, ground arith, Inside-suc pe k (on_element-Inside pe k _ _ _ i), inl refl)
perform-After pe k tr28 p m h l i q = (
  ground arith,
  ground arith,
  Inside-suc pe k (on_element-Inside pe k _ _ _ (on_element-Inside pe k _ _ _ i)),
  inl refl,
)
perform-After pe k tr31 p m h l i q = (
  ground arith,
  ground arith,
  Inside-suc pe k (on_element-Inside pe k _ _ _ (on_element-Inside pe k _ _ _ i)),
  inl refl,
)
perform-After pe k tr40 p m h l i q = (
  ground arith,
  ground arith,
  Inside-suc pe k
      (on_element-Inside pe k _ _ _ (on_element-Inside pe k _ _ _ (Inside-set_query_start pe k i))),
  inl refl,
)
perform-After pe k tr36 p m h l i q =
    (ground arith, ground arith, Inside-suc pe k (on_field-Inside pe k _ _ _ _ i), inl refl)
perform-After pe k tr25 p m h l i q = ended m.env.world.neko_val refl
  where
    ended :
        (v : Option Object)
        → m.env.world.neko_val ≡ v
        → After pe k p (perform callbacks pe tr25 p m)
    ended none e = absurd (i.has_object e)
    ended (some o) e = inr (
        inr (
          record {
            mark_lt = i.mark_lt;
            start_lt = i.start_lt;
            len_le = i.len_le;
            body = refl;
            nothing_read = i.nothing_read;
            one_called = (o, ground arith);
          },
          refl,
          l,
        ))
perform-After pe k tr39 p m h l i q = ground arith
perform-After pe k tr41 p m h l i q = ground arith
perform-After pe k _ p m h l i q = ground arith

-- The result of the loop, with its end.
abbrev pub LoopEnds : ℕ → ℕ → Outcome (State × ℕ × Machine Script) → Type 0
LoopEnds pe k r =
    (s : State) × (p : ℕ) × (m : Machine Script) × (r ≡ returned (s, p, m)) × Ends pe k s p m

resume :
    (pe k n p : ℕ) (j : Jump Script)
    → ((s : State) (m : Machine Script)
        → s ≢ st1
        → s ≢ st53
        → Inside pe k (p + 1) m
        → QueryStarts s (p + 1) m
        → LoopEnds pe k (loop callbacks pe n (p + 1) s m))
    → After pe k p j
    → LoopEnds pe k
        (elim j [ halt s m ↦ returned (s, p, m) | next s m ↦ loop callbacks pe n (p + 1) s m ])
resume pe k n p (halt s m) ih a = (s, p, m, refl, a)
resume pe k n p (next s m) ih (x, y, i, q) = ih s m x y i q

-- The loop of the parser over a buffer of more bytes than the length, from an open state with mark
-- and field_start at bytes already read, field_len at most the length, query_start at most the
-- index inside a query, no body, and an object, ends within the bytes left, in one of three ways:
-- refused at a byte, with mark, field_start and field_len still so and no call of the script; out
-- of bytes, with query_start still so too; or at the final newline, with mark, field_start and
-- field_len still below or at the length, the body behind the newline, and one call of the script.
pub loop-Ends :
    (pe k n p : ℕ) (s : State) (m : Machine Script)
    → p + n ≡ pe
    → pe < k
    → s ≢ st1
    → s ≢ st53
    → Inside pe k p m
    → QueryStarts s p m
    → LoopEnds pe k (loop callbacks pe n p s m)
unfolding loop
loop-Ends pe k zero p s m e l a b i q = (s, p, m, refl, inr (inl (i, a, b, omega arith, q)))
loop-Ends pe k (suc n) p s m e l a b i q =
    let (c, r) = get_elem?-lt m.env.buffer p (omega (arith, i.size)) in
    rw (r, loop)
      (resume pe k n p (perform callbacks pe (dispatch s c) p m)
        (λ s' m' a' b' i' q'. loop-Ends pe k n (p + 1) s' m' (omega arith) l a' b' i' q')
        (perform-After pe k (dispatch s c) p m (dispatch-ne-st53 s c) (omega arith) i
          (dispatch-started s c p m.parser.query_start q)))
