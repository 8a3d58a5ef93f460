-- ===== src/Http/Total.antt =====
-- The outcomes of httpp_execute (http11neko.c over http11_parser.c): when it returns, when one of
-- the parser's assertions aborts, and what a returned parser says.
use caffeine_hx.Common.{
  ℕ, zero, suc, ◌+◌, ◌-◌, ◌≤◌, ◌<◌, ◌^◌, ◌≡◌, ◌≢◌, refl, sym, ap, ◌∙◌, ◌↔◌, ◌⊎◌, inl, inr, [], ◌∷◌,
  ◌++◌, some, true, length, get_elem?, lt_of_get_elem?, leb, arith,
}
use caffeine_hx.Common.Int.{pos}
use caffeine_hx.Http.Execute.{
  Machine, Outcome, assert_failed, conclude, conclude_loop, loop, http_parser_execute,
}
use caffeine_hx.Http.Neko.{
  Bytes, Script, Object, callbacks, Ended, value, aborted, Ran, ran, httpp_execute,
}
use caffeine_hx.Http.Offsets.{Inside, Done, LoopEnds, loop-Ends}
use caffeine_hx.Http.Parser.{Parser, http_parser_init}
use caffeine_hx.Http.State.{State, st0, st1, st53}

-- What a call says of `n` bytes: refused at the byte `nread`, all read with the headers open, or the
-- headers read up to the body and the script called once.
pub data Verdict (n : ℕ) (x : Ran) : Type 0 where
  refused :
      x.parser.cs ≡ st1 → x.parser.nread < n → x.parser.body_start ≡ 0 → x.called ≡ [] → Verdict n x
  open_headers :
      x.parser.cs ≢ st1
      → x.parser.cs ≢ st53
      → x.parser.nread ≡ n
      → x.parser.body_start ≡ 0
      → x.called ≡ []
      → Verdict n x
  complete :
      (o : Object)
      → x.parser.cs ≡ st53
      → x.parser.nread ≡ x.parser.body_start
      → 0 < x.parser.body_start
      → x.parser.body_start ≤ n
      → x.called ≡ o ∷ []
      → Verdict n x

abbrev pub Says : ℕ → Ended Ran → Type 0
Says n e = (x : Ran) × (e ≡ value x) × Verdict n x

-- What a call leaves of a machine, with `cs` and `nread` stored.
abbrev pub left : Machine Script → State → ℕ → Ran
left m s read = record {
  parser = record m.parser { cs = s; nread = read };
  text = m.env.buffer;
  called = m.env.world.called;
}

module _ (n k p : ℕ) (small : n < 2 ^ 64) where
  conclude_refused :
      (m : Machine Script) → Inside n k p m → p < n → Says n (ran (conclude callbacks n 0 st1 p m))
  unfolding conclude ran
  conclude_refused m i l = (left m st1 p, ground arith, refused refl l i.no_body i.none_called)

  conclude_open :
      (s : State) (m : Machine Script)
      → Inside n k p m
      → s ≢ st1
      → s ≢ st53
      → p ≡ n
      → Says n (ran (conclude callbacks n 0 s p m))
  unfolding conclude ran
  conclude_open s m i a b e = (left m s p, ground arith, open_headers a b e i.no_body i.none_called)

  pub conclude-Done :
      (m : Machine Script)
      → Done n k p m
      → p < n
      → ran (conclude callbacks n 0 st53 p m) ≡ value (left m st53 (p + 1))
  unfolding conclude ran
  conclude-Done m d l = ground arith

  conclude_complete :
      (m : Machine Script) → Done n k p m → p < n → Says n (ran (conclude callbacks n 0 st53 p m))
  unfolding conclude ran
  conclude_complete m d l = (
    left m st53 (p + 1),
    conclude-Done m d l,
    complete d.one_called.0 refl (sym d.body) (omega (arith, d.body)) (omega (arith, d.body))
        d.one_called.1,
  )

conclude-Says :
    (n k : ℕ)
    → n < 2 ^ 64
    → (r : Outcome (State × ℕ × Machine Script)) → LoopEnds n k r
    → Says n (ran (conclude_loop callbacks n 0 r))
unfolding conclude_loop
conclude-Says n k small r (s, p, m, e, inl (i, a, l)) =
    rw (e, a) (conclude_refused n k p small m i l)
conclude-Says n k small r (s, p, m, e, inr (inl (i, a, b, l, q))) =
    rw e (conclude_open n k p small s m i a b l)
conclude-Says n k small r (s, p, m, e, inr (inr (d, a, l))) =
    rw (e, a) (conclude_complete n k p small m d l)

-- The machine that httpp_execute starts with.
abbrev pub start : Parser → Bytes → Machine Script
start r text = record {
  parser = http_parser_init r;
  env = record { buffer = text ++ 0 ∷ []; world = record { neko_val = some []; called = [] } };
}

pub start-Inside :
    (r : Parser) (text : Bytes) (n : ℕ)
    → 0 < n
    → Inside n (length (text ++ 0 ∷ [])) 0 (start r text)
unfolding http_parser_init
start-Inside r text n h = ground arith

sub_zero : (n : ℕ) → n - 0 ≡ n
sub_zero n = omega arith

leb_zero : (n : ℕ) → leb 0 n ≡ true
leb_zero n = ground arith

pub execute_at_nul :
    (n : ℕ) (m : Machine Script)
    → get_elem? m.env.buffer n ≡ some 0
    → http_parser_execute callbacks n 0 m
      ≡ conclude_loop callbacks n 0 (loop callbacks n n 0 m.parser.cs m)
unfolding http_parser_execute
execute_at_nul n m z = rw (z, leb_zero n, sub_zero n)

execute_off_nul :
    (n c : ℕ) (m : Machine Script)
    → get_elem? m.env.buffer n ≡ some c
    → c ≢ 0
    → http_parser_execute callbacks n 0 m ≡ assert_failed
unfolding http_parser_execute
execute_off_nul n c m z h = ground arith

-- On `n` bytes, at least one and fewer than 2 ^ 64, behind which a NUL stands, httpp_execute returns:
-- no assertion fails and nothing is read out of bounds. What it says is one of the three verdicts.
pub httpp_execute-Verdict :
    (r : Parser) (text : Bytes) (n : ℕ)
    → 0 < n
    → n < 2 ^ 64
    → get_elem? (text ++ 0 ∷ []) n ≡ some 0
    → Says n (httpp_execute (some r) text (pos n) true)
unfolding httpp_execute http_parser_init
httpp_execute-Verdict r text n h small z = rw (execute_at_nul n (start r text) z) (
    conclude-Says n (length (text ++ 0 ∷ [])) small (loop callbacks n n 0 st0 (start r text)) (
      loop-Ends n (length (text ++ 0 ∷ [])) n 0 st0 (start r text) (omega arith)
        (lt_of_get_elem? (text ++ 0 ∷ []) n z) (ground arith) (ground arith)
        (start-Inside r text n h) (inl refl)))

-- An `int` that is 0, or at which no NUL stands, makes an assertion of the parser abort the process.
execute_aborts :
    (r : Parser) (text : Bytes) (n c : ℕ)
    → get_elem? (text ++ 0 ∷ []) n ≡ some c
    → (n ≡ 0) ⊎ (c ≢ 0)
    → httpp_execute (some r) text (pos n) true ≡ aborted
unfolding httpp_execute http_parser_execute http_parser_init loop conclude ran
execute_aborts r text zero c z h = ground arith
execute_aborts r text (suc n) c z h = rw (execute_off_nul (suc n) c (start r text) z (ground arith))

abort_cases : (n c : ℕ) → ((n ≡ 0) ⊎ (c ≢ 0)) ⊎ ((0 < n) × (c ≡ 0))
abort_cases zero c = inl (inl refl)
abort_cases (suc n) zero = inr (omega arith, refl)
abort_cases (suc n) (suc c) = inl (inr (λ p. omega (arith, p)))

-- For a length below 2 ^ 64 at which the string, or the NUL behind it, has a byte: an assertion of the
-- parser aborts the process exactly if the length is 0 or the byte is no NUL.
pub httpp_execute-aborted :
    (r : Parser) (text : Bytes) (n c : ℕ)
    → n < 2 ^ 64
    → get_elem? (text ++ 0 ∷ []) n ≡ some c
    → (httpp_execute (some r) text (pos n) true ≡ aborted) ↔ ((n ≡ 0) ⊎ (c ≢ 0))
httpp_execute-aborted r text n c small z = (only_if, execute_aborts r text n c z)
  where
    only_if : httpp_execute (some r) text (pos n) true ≡ aborted → (n ≡ 0) ⊎ (c ≢ 0)
    only_if h = elim (abort_cases n c) [
      | inl a ↦ a
      | inr (some_bytes, nul) ↦
          let (x, e, v) = httpp_execute-Verdict r text n some_bytes small (z ∙ ap some nul) in cc
    ]
