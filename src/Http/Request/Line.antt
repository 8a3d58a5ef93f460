-- ===== src/Http/Request/Line.antt =====
-- Runs of the parser over the request line: a marked token, and the callbacks at its end.
use caffeine_hx.Common.{ℕ, ◌≡◌, ◌∙◌, [], ◌∷◌, ◌++◌, length, append_assoc}
use caffeine_hx.Http.Dispatch.{dispatch}
use caffeine_hx.Http.Execute.{next, perform}
use caffeine_hx.Http.Neko.{Bytes, Key, Script, string, until_nul, on_element, callbacks}
use caffeine_hx.Http.Parser.{Parser, Env, sub_size}
use caffeine_hx.Http.Request.Step.{
  at, run, run_byte, run-next, run-Quiet, Quiet, with_field, on_element_lem,
}
use caffeine_hx.Http.State.{State, Target}

abbrev pub bytes : Bytes → Script → Env Script
bytes b w = record { buffer = b; world = w }

module _ (pe : ℕ) (tail : Bytes) where
  -- A byte that sets an offset, and the quiet bytes of the token behind it.
  pub run_marked :
      (pre : Bytes) (c : ℕ) (word suf : Bytes) (s s' s'' : State) (r r' : Parser) (w : Script)
      (t : Target)
      → dispatch s c ≡ t
      → ((b : Bytes) → perform callbacks pe t (length pre) (at r b w) ≡ next s' (at r' b w))
      → Quiet s' word s''
      → run pe tail pre (c ∷ (word ++ suf)) s r w ≡ run pe tail (pre ++ (c ∷ word)) suf s'' r' w
  run_marked pre c word suf s s' s'' r r' w t d j q =
      run_byte pe tail pre c (word ++ suf) s r w t d
      ∙ rw (j (pre ++ (c ∷ ((word ++ suf) ++ tail)))) (run-next pe tail pre c (word ++ suf) s' r' w)
      ∙ run-Quiet pe tail word (pre ++ c ∷ []) suf s' s'' r' w q
      ∙ rw (append_assoc pre (c ∷ []) word)

  -- The byte behind a token that ends it with the callback for `k`.
  pub run_element :
      (k : Key) (pre word : Bytes) (c : ℕ) (suf : Bytes) (s s' : State) (r : Parser) (w : Script)
      (t : Target)
      → dispatch s c ≡ t
      → ((b : Bytes)
          → perform callbacks pe t (length (pre ++ word)) (at r b w)
            ≡ next s' (record {
              parser = r;
              env =
                  on_element k
                    (length pre)
                    (sub_size (length (pre ++ word)) (length pre))
                    (bytes b w);
            }))
      → run pe tail (pre ++ word) (c ∷ suf) s r w
        ≡ run pe tail
            ((pre ++ word) ++ (0 ∷ []))
            suf
            s'
            r
            (with_field k (string (until_nul word)) w)
  run_element k pre word c suf s s' r w t d j =
      run_byte pe tail (pre ++ word) c suf s r w t d
      ∙ rw (j ((pre ++ word) ++ (c ∷ (suf ++ tail)))) (
          rw (on_element_lem k pre word c (suf ++ tail) w)
            (run-next pe tail (pre ++ word) 0 suf s' r (with_field k (string (until_nul word)) w)))

  -- The same with two callbacks, for two tokens that end at the same byte.
  pub run_elements :
      (k k' : Key) (pre word pre' word' : Bytes) (c : ℕ) (suf : Bytes) (s s' : State)
      (r r' : Parser) (w : Script) (t : Target)
      → pre ++ word ≡ pre' ++ word'
      → dispatch s c ≡ t
      → ((b : Bytes)
          → perform callbacks pe t (length (pre ++ word)) (at r b w)
            ≡ next s' (record {
              parser = r';
              env = on_element k' (length pre') (sub_size (length (pre ++ word)) (length pre')) (
                  on_element k
                    (length pre)
                    (sub_size (length (pre ++ word)) (length pre))
                    (bytes b w));
            }))
      → run pe tail (pre ++ word) (c ∷ suf) s r w
        ≡ run pe tail
            ((pre ++ word) ++ (0 ∷ []))
            suf
            s'
            r'
            (with_field k' (string (until_nul word')) (with_field k (string (until_nul word)) w))
  run_elements k k' pre word pre' word' c suf s s' r r' w t same d j =
      run_byte pe tail (pre ++ word) c suf s r w t d
      ∙ rw (j ((pre ++ word) ++ (c ∷ (suf ++ tail)))) (
          rw (on_element_lem k pre word c (suf ++ tail) w, same)
            (rw
              (on_element_lem k' pre' word' 0 (suf ++ tail)
                (with_field k (string (until_nul word)) w))
              (run-next pe tail (pre' ++ word') 0 suf s' r' (
                with_field k' (string (until_nul word'))
                  (with_field k (string (until_nul word)) w)))))
