-- ===== src/Http/Request/Step.antt =====
-- Runs of the loop of http_parser_execute over a buffer split at the read position: `pre` is read
-- (and written to by the callbacks), `suf` is still to be parsed, `tail` lies behind it.
use caffeine_hx.Common.{
  ℕ, ◌+◌, ◌≡◌, ◌≢◌, refl, sym, ap, subst, ◌∙◌, [], ◌∷◌, ◌++◌, length, length-append,
  get_elem?-length_append, set-length_append, drop-length_append, append-nil, append_assoc, arith,
}
use caffeine_hx.Http.Dispatch.{dispatch}
use caffeine_hx.Http.Execute.{Machine, Jump, halt, next, Outcome, returned, perform, loop}
use caffeine_hx.Http.Neko.{
  Bytes, Key, Value, Script, string, until_nul, add_field, on_element, callbacks,
}
use caffeine_hx.Http.Parser.{Parser, sub_size}
use caffeine_hx.Http.State.{State, st0, st1, Target, st}

abbrev pub at : Parser → Bytes → Script → Machine Script
at r buffer w = record { parser = r; env = record { buffer = buffer; world = w } }

-- What the loop does with a jump, `n` bytes before the end.
abbrev pub continue : ℕ → ℕ → ℕ → Jump Script → Outcome (State × ℕ × Machine Script)
continue pe n p (halt s m) = returned (s, p, m)
continue pe n p (next s m) = loop callbacks pe n (p + 1) s m

module _ (pe : ℕ) (tail : Bytes) where
  abbrev pub run : Bytes → Bytes → State → Parser → Script → Outcome (State × ℕ × Machine Script)
  run pre suf s r w = loop callbacks pe (length suf) (length pre) s (at r (pre ++ (suf ++ tail)) w)

  pub run_byte :
      (pre : Bytes) (c : ℕ) (suf : Bytes) (s : State) (r : Parser) (w : Script) (t : Target)
      → dispatch s c ≡ t
      → run pre (c ∷ suf) s r w
        ≡ continue pe
            (length suf)
            (length pre)
            (perform callbacks pe t (length pre) (at r (pre ++ (c ∷ (suf ++ tail))) w))
  unfolding loop
  run_byte pre c suf s r w t e = rw (get_elem?-length_append pre c (suf ++ tail), loop) (rw e)

  -- Behind a jump that goes on, with the byte `d` left where `c` was read.
  pub run-next :
      (pre : Bytes) (d : ℕ) (suf : Bytes) (s : State) (r : Parser) (w : Script)
      → continue pe (length suf) (length pre) (next s (at r (pre ++ (d ∷ (suf ++ tail))) w))
        ≡ run (pre ++ d ∷ []) suf s r w
  run-next pre d suf s r w =
      rw (length-append pre (d ∷ []), append_assoc pre (d ∷ []) (suf ++ tail))

perform-st :
    (pe p : ℕ) (s : State) (m : Machine Script)
    → s ≢ st1
    → perform callbacks pe (st s) p m ≡ next s m
unfolding perform
perform-st pe p st0 m h = refl
perform-st pe p st1 m h = absurd (h refl)
perform-st pe p _ m h = refl

-- A word that takes the parser from one state to another with no action.
abbrev pub Quiet : State → Bytes → State → Type 0
Quiet s [] s' = s ≡ s'
Quiet s (c ∷ w) s' = (t : State) × (dispatch s c ≡ st t) × (t ≢ st1) × Quiet t w s'

pub Quiet-append : (u v : Bytes) (s t s' : State) → Quiet s u t → Quiet t v s' → Quiet s (u ++ v) s'
Quiet-append [] v s t s' e q = subst (λ x. Quiet x v s') (sym e) q
Quiet-append (c ∷ u) v s t s' (x, d, n, q') q = (x, d, n, Quiet-append u v x t s' q' q)

module _ (pe : ℕ) (tail : Bytes) where
  pub run-Quiet :
      (word pre suf : Bytes) (s s' : State) (r : Parser) (w : Script)
      → Quiet s word s'
      → run pe tail pre (word ++ suf) s r w ≡ run pe tail (pre ++ word) suf s' r w
  run-Quiet [] pre suf s s' r w e = rw (append-nil pre) (ap (λ x. run pe tail pre suf x r w) e)
  run-Quiet (c ∷ word) pre suf s s' r w (t, d, n, q) =
      run_byte pe tail pre c (word ++ suf) s r w (st t) d
      ∙ rw (perform-st pe (length pre) t (at r (pre ++ (c ∷ ((word ++ suf) ++ tail))) w) n)
          (run-next pe tail pre c (word ++ suf) t r w)
      ∙ run-Quiet word (pre ++ c ∷ []) suf t s' r w q
      ∙ rw (append_assoc pre (c ∷ []) word)

-- `neko_val` with one more field.
abbrev pub with_field : Key → Value → Script → Script
with_field k v w = record w { neko_val = add_field k v w.neko_val }

pub until_nul-append : (word rest : Bytes) → until_nul (word ++ 0 ∷ rest) ≡ until_nul word
until_nul-append [] rest = refl
until_nul-append (c ∷ word) rest = rw (until_nul-append word rest)

pub sub_size-length :
    (a b : Bytes) → length a + sub_size (length (a ++ b)) (length a) ≡ length (a ++ b)
sub_size-length a b = ground (arith, length-append a b)

-- An element callback on the token `word` that ends where the byte `c` was read: the byte becomes
-- NUL, and the field is the token up to its first NUL.
pub on_element_lem :
    (k : Key) (pre word : Bytes) (c : ℕ) (rest : Bytes) (w : Script)
    → on_element k
        (length pre)
        (sub_size (length (pre ++ word)) (length pre))
        (record { buffer = (pre ++ word) ++ (c ∷ rest); world = w })
      ≡ record {
        buffer = (pre ++ word) ++ (0 ∷ rest);
        world = with_field k (string (until_nul word)) w;
      }
unfolding on_element
on_element_lem k pre word c rest w =
    rw (sub_size-length pre word, set-length_append (pre ++ word) c 0 rest)
      (rw (append_assoc pre word (0 ∷ rest), drop-length_append pre (word ++ 0 ∷ rest))
        (rw (until_nul-append word rest)))
