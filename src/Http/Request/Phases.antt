-- ===== src/Http/Request/Phases.antt =====
-- The parts of a request, one after the other: what the parser does on each, with its callbacks.
use caffeine_hx.Common.{
  ℕ, ◌+◌, ◌-◌, ◌≤◌, ◌≡◌, ◌≢◌, refl, sym, ap, ◌∙◌, [], ◌∷◌, ◌++◌, Option, none, some, length,
  length-append, append_assoc, append-nil, arith,
}
use caffeine_hx.Http.Dispatch.{dispatch}
use caffeine_hx.Http.Execute.{perform}
use caffeine_hx.Http.Neko.{
  Bytes, Script, string, request_method, request_uri, request_path, query_string, until_nul,
  callbacks,
}
use caffeine_hx.Http.Parser.{Parser}
use caffeine_hx.Http.Request.Bytes.{
  is_method, is_query, is_path, dispatch_method_end, method_byte-is_method, uri_byte-is_uri,
}
use caffeine_hx.Http.Request.Data.{All, Word, nil, byte, escape, IsQuery, print_query}
use caffeine_hx.Http.Request.Line.{run_marked, run_element, run_elements}
use caffeine_hx.Http.Request.Step.{run, with_field, until_nul-append}
use caffeine_hx.Http.Request.Words.{
  until_nul_method, until_nul_query, until_nul_path, after_word, Quiet-method, Quiet-path,
  Quiet-query, Quiet-escape,
}
use caffeine_hx.Http.State.{
  State, st0, st2, st3, st5, st24, st30, st31, st32, tr12, tr14, tr17, tr28, tr31, tr34, tr39, tr40,
  tr41,
}

-- The fields that a path and a query set, in the order of the callbacks.
abbrev pub with_uri : Bytes → Option Bytes → Script → Script
with_uri path none w =
    with_field request_uri (string (b'/' ∷ path)) (with_field request_path (string (b'/' ∷ path)) w)
with_uri path (some q) w =
    with_field request_uri (string (b'/' ∷ path))
      (with_field query_string (string q) (with_field request_path (string (b'/' ∷ path)) w))

module _ (pe : ℕ) (tail : Bytes) where
  -- The parser gets from one place to another: some text is behind it, no byte is lost.
  pub record Leads (pre suf : Bytes) (s : State) (r : Parser) (w : Script) (suf' : Bytes)
      (s' : State) (w' : Script) : Type 0 where
    pub read : Bytes
    pub parser : Parser
    pub runs : run pe tail pre suf s r w ≡ run pe tail read suf' s' parser w'
    pub counted : length read + length suf' ≡ length pre + length suf

  pub method_Leads :
      (method suf : Bytes) (r : Parser) (w : Script)
      → method ≢ []
      → length method ≤ 20
      → All is_method method
      → Leads []
          (method ++ (32 ∷ suf))
          st0
          r
          w
          suf
          st3
          (with_field request_method (string method) w)
  unfolding dispatch perform callbacks
  method_Leads [] suf r w n l a = absurd (n refl)
  method_Leads (c ∷ word) suf r w n l a =
      let k = 19 - length word in
      let (q, left) = Quiet-method st2 word k (omega arith) a.1 in
      record {
        read = (c ∷ word) ++ (0 ∷ []);
        parser = record r { mark = 0 };
        runs =
            run_marked pe tail [] c word (32 ∷ suf) st0 st2 (after_word st2 word) r
              (record r { mark = 0 }) w tr14 (ground (arith, method_byte-is_method tr14 c))
              (λ b. refl) q
            ∙ run_element pe tail request_method [] (c ∷ word) 32 suf (after_word st2 word) st3
                (record r { mark = 0 }) w tr17 (dispatch_method_end (after_word st2 word) k left)
                (λ b. refl)
            ∙ rw (until_nul_method (c ∷ word) a);
        counted =
            omega (arith, length-append (c ∷ word) (0 ∷ []), length-append (c ∷ word) (32 ∷ suf));
      }

  -- The query behind the NUL that the path's callback wrote, and the uri from before it.
  module _ (pre path suf : Bytes) (r : Parser) (w : Script) where
    abbrev asked : Bytes
    asked = (pre ++ path) ++ (0 ∷ [])

    abbrev marked : Parser
    marked = record r { mark = length pre }

    abbrev queried : Parser
    queried = record r { mark = length pre; query_start = length asked }

    same_buffer : (word : Bytes) → asked ++ word ≡ pre ++ (path ++ (0 ∷ word))
    same_buffer word = simp append_assoc

    query_end :
        (word : Bytes)
        → until_nul word ≡ word
        → run pe tail (asked ++ word) (32 ∷ suf) st31 queried w
          ≡ run pe tail ((asked ++ word) ++ (0 ∷ [])) suf st5 queried (
              with_field request_uri
                (string (until_nul path))
                (with_field query_string (string word) w))
    unfolding dispatch perform callbacks
    query_end word e =
        run_elements pe tail query_string request_uri asked word pre (path ++ (0 ∷ word)) 32 suf
          st31 st5 queried queried w tr28 (same_buffer word) refl (λ b. refl)
        ∙ rw (e, until_nul-append path word)

    query_runs :
        (word : Bytes)
        → Word is_query word
        → run pe tail asked (word ++ (32 ∷ suf)) st30 marked w
          ≡ run pe tail ((asked ++ word) ++ (0 ∷ [])) suf st5 queried (
              with_field request_uri
                (string (until_nul path))
                (with_field query_string (string word) w))
    unfolding dispatch perform callbacks
    query_runs [] nil =
        ap (λ x. run pe tail x (32 ∷ suf) st30 marked w) (sym (append-nil asked))
        ∙ run_elements pe tail query_string request_uri asked [] pre (path ++ (0 ∷ [])) 32 suf st30
            st5 marked queried w tr40 (same_buffer []) refl (λ b. rw (append-nil asked))
        ∙ rw (until_nul-append path [])
    query_runs (c ∷ word) (byte h q) =
        run_marked pe tail asked c word (32 ∷ suf) st30 st31 st31 marked queried w tr39
          (ground (arith, uri_byte-is_uri tr39 c)) (λ b. refl) (Quiet-query q)
        ∙ query_end (c ∷ word) (until_nul_query (byte h q))
    query_runs (_ ∷ word) (escape {h = a} {l = b} h l q) =
        run_marked pe tail asked 37 word (32 ∷ suf) st30 st32 st31 marked queried w tr41 refl
          (λ b. refl) (Quiet-escape a b h l q)
        ∙ query_end (37 ∷ word) (until_nul_query (escape h l q))

  -- The path, with the callbacks for it and for the uri, and the query.
  pub path_Leads :
      (pre path : Bytes) (query : Option Bytes) (suf : Bytes) (r : Parser) (w : Script)
      → Word is_path path
      → IsQuery query
      → Leads pre
          ((b'/' ∷ path) ++ print_query query (32 ∷ suf))
          st3
          r
          w
          suf
          st5
          (with_uri path query w)
  unfolding dispatch perform callbacks
  path_Leads pre path none suf r w h q = record {
    read = (pre ++ (b'/' ∷ path)) ++ (0 ∷ []);
    parser = record r { mark = length pre };
    runs =
        run_marked pe tail pre b'/' path (32 ∷ suf) st3 st24 st24 r (record r { mark = length pre })
          w tr12 refl (λ b. refl) (Quiet-path h)
        ∙ run_elements pe tail request_path request_uri pre (b'/' ∷ path) pre (b'/' ∷ path) 32 suf
            st24 st5 (record r { mark = length pre }) (record r { mark = length pre }) w tr31 refl
            refl (λ b. refl)
        ∙ rw (until_nul_path h);
    counted = omega (
      arith,
      length-append (pre ++ (b'/' ∷ path)) (0 ∷ []),
      length-append pre (b'/' ∷ path),
      length-append (b'/' ∷ path) (32 ∷ suf),
    );
  }
  path_Leads pre path (some word) suf r w h q =
      let r' = record r { mark = length pre } in
      let read = pre ++ (b'/' ∷ path) in
      let w' = with_field request_path (string (until_nul (b'/' ∷ path))) w in
      record {
        read = ((read ++ (0 ∷ [])) ++ word) ++ (0 ∷ []);
        parser = record r' { query_start = length (read ++ (0 ∷ [])) };
        runs =
            run_marked pe tail pre b'/' path (b'?' ∷ (word ++ (32 ∷ suf))) st3 st24 st24 r r' w tr12
              refl (λ b. refl) (Quiet-path h)
            ∙ run_element pe tail request_path pre (b'/' ∷ path) b'?' (word ++ (32 ∷ suf)) st24 st30
                r' w tr34 refl (λ b. refl)
            ∙ query_runs pre (b'/' ∷ path) suf r w' word q
            ∙ rw (until_nul_path h);
        counted = omega (
          arith,
          length-append ((read ++ (0 ∷ [])) ++ word) (0 ∷ []),
          length-append (read ++ (0 ∷ [])) word,
          length-append read (0 ∷ []),
          length-append pre (b'/' ∷ path),
          length-append path (b'?' ∷ (word ++ (32 ∷ suf))),
          length-append word (32 ∷ suf),
        );
      }
