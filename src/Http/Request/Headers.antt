-- ===== src/Http/Request/Headers.antt =====
-- The version, the header lines and the end of the headers: what the parser does on each.
use caffeine_hx.Common.{
  ℕ, zero, suc, ◌≡◌, ◌≢◌, refl, ◌∙◌, List, [], ◌∷◌, ◌++◌, length, length-append, append_assoc,
  append-nil, replicate, arith,
}
use caffeine_hx.Http.Dispatch.{dispatch}
use caffeine_hx.Http.Execute.{perform}
use caffeine_hx.Http.Neko.{Bytes, Script, string, http_version, header, until_nul, callbacks}
use caffeine_hx.Http.Parser.{Parser, sub_size}
use caffeine_hx.Http.Request.Bytes.{is_digit, is_name, name_byte-is_name}
use caffeine_hx.Http.Request.Data.{
  All, is_text, Starts, Header, IsHeader, AllHeaders, print_header, print_headers,
}
use caffeine_hx.Http.Request.Field.{field_value, before, before', length-before, on_field_lem}
use caffeine_hx.Http.Request.Line.{run_marked, run_element}
use caffeine_hx.Http.Request.Phases.{Leads}
use caffeine_hx.Http.Request.Step.{run, run_byte, run-next, run-Quiet, Quiet, with_field}
use caffeine_hx.Http.Request.Words.{
  until_nul_name, until_nul_text, until_nul_version, Quiet-version, Quiet-name, Quiet-text,
}
use caffeine_hx.Http.State.{
  st5, st6, st13, st14, st15, st17, st18, st19, tr3, tr16, tr21, tr22, tr36, tr37, tr38,
}

line_feed : Quiet st14 (10 ∷ []) st15
unfolding dispatch
line_feed = (st15, refl, ground arith, refl)

-- The length of a token, as the parser computes it.
sub_size-append : (a b : Bytes) → sub_size (length (a ++ b)) (length a) ≡ length b
sub_size-append a b = ground (arith, length-append a b)

-- The script's state with the fields of header lines.
abbrev pub with_headers : List Header → Script → Script
with_headers [] w = w
with_headers (h ∷ hs) w = with_headers hs (with_field (header h.name) (field_value h.name h.text) w)

module _ (pe : ℕ) (tail : Bytes) where
  pub version-Leads :
      (pre major minor suf : Bytes) (r : Parser) (w : Script)
      → major ≢ []
      → All is_digit major
      → minor ≢ []
      → All is_digit minor
      → let version = b'H' ∷ b'T' ∷ b'T' ∷ b'P' ∷ b'/' ∷ (major ++ (b'.' ∷ minor)) in
        Leads pe tail pre
          (version ++ (13 ∷ 10 ∷ suf))
          st5
          r
          w
          suf
          st15
          (with_field http_version (string version) w)
  unfolding dispatch perform callbacks
  version-Leads pre major minor suf r w n a m b =
      let word : Bytes = b'T' ∷ b'T' ∷ b'P' ∷ b'/' ∷ (major ++ (b'.' ∷ minor)) in
      let marked = record r { mark = length pre } in
      let read = (pre ++ (b'H' ∷ word)) ++ (0 ∷ []) in
      let w' = with_field http_version (string (until_nul (b'H' ∷ word))) w in
      record {
        read = read ++ (10 ∷ []);
        parser = marked;
        runs =
            run_marked pe tail pre b'H' word (13 ∷ 10 ∷ suf) st5 st6 st13 r marked w tr3 refl
              (λ b. refl) (Quiet-version major minor n a m b)
            ∙ run_element pe tail http_version pre (b'H' ∷ word) 13 (10 ∷ suf) st13 st14 marked w
                tr22 refl (λ b. refl)
            ∙ run-Quiet pe tail (10 ∷ []) read suf st14 st15 marked w' line_feed
            ∙ rw (until_nul_version major minor a b);
        counted = omega (
          arith,
          length-append read (10 ∷ []),
          length-append (pre ++ (b'H' ∷ word)) (0 ∷ []),
          length-append pre (b'H' ∷ word),
          length-append (b'H' ∷ word) (13 ∷ 10 ∷ suf),
        );
      }

  -- The spaces behind a colon, each of which moves the mark.
  run_spaces :
      (n : ℕ) (pre suf : Bytes) (r : Parser) (w : Script)
      → (k : ℕ) × (run pe tail pre (replicate n 32 ++ suf) st18 r w
          ≡ run pe tail (pre ++ replicate n 32) suf st18 (record r { mark = k }) w)
  unfolding dispatch perform callbacks
  run_spaces zero pre suf r w = (r.mark, rw (append-nil pre))
  run_spaces (suc n) pre suf r w =
      let (k, e) = run_spaces n (pre ++ 32 ∷ []) suf (record r { mark = length pre }) w in
      (
        k,
        run_marked pe tail pre 32 [] (replicate n 32 ++ suf) st18 st18 st18 r
              (record r { mark = length pre }) w tr38 refl (λ b. refl) refl
            ∙ e
            ∙ rw (append_assoc pre (32 ∷ []) (replicate n 32)),
      )

  -- The carriage return behind a header's text.
  run_field :
      (pre name mid text suf : Bytes) (r : Parser) (w : Script)
      → let marked = record r {
        field_start = length pre;
        field_len = length name;
        mark = length (before pre name mid);
      } in
        run pe tail (before pre name mid ++ text) (13 ∷ suf) st19 marked w
        ≡ run pe tail
            ((before' pre name mid ++ text) ++ (0 ∷ []))
            suf
            st14
            marked
            (with_field (header (until_nul name)) (field_value (until_nul name) (until_nul text)) w)
  unfolding dispatch perform callbacks
  run_field pre name mid text suf r w =
      let marked = record r {
        field_start = length pre;
        field_len = length name;
        mark = length (before pre name mid);
      } in
      run_byte pe tail (before pre name mid ++ text) 13 suf st19 marked w tr36 refl
      ∙ rw
          (
            on_field_lem pre name mid text 13 (suf ++ tail) w,
            length-before pre name mid text 13 suf,
          )
          (run-next pe tail (before' pre name mid ++ text) 0 suf st14 marked (
            with_field (header (until_nul name)) (field_value (until_nul name) (until_nul text)) w))

  -- The text of a header, its first byte at the mark.
  run_text :
      (pre name mid text suf : Bytes) (r : Parser) (w : Script)
      → Starts text
      → All is_text text
      → (r' : Parser) × (run pe tail
            (before pre name mid)
            (text ++ (13 ∷ suf))
            st18
            (record r { field_start = length pre; field_len = length name })
            w
          ≡ run pe tail
              ((before' pre name mid ++ text) ++ (0 ∷ []))
              suf
              st14
              r'
              (with_field (header (until_nul name)) (field_value (until_nul name) text) w))
  unfolding dispatch perform callbacks
  run_text pre name mid [] suf r w s a = absurd s
  run_text pre name mid (c ∷ text) suf r w s a =
      let named = record r { field_start = length pre; field_len = length name } in
      let marked = record named { mark = length (before pre name mid) } in
      (
        marked,
        run_marked pe tail (before pre name mid) c text (13 ∷ suf) st18 st19 st19 named marked w
              tr37 (ground arith) (λ b. refl) (Quiet-text text a.1)
            ∙ run_field pre name mid (c ∷ text) suf r w
            ∙ rw (until_nul_text (c ∷ text) a),
      )

  -- The name and the colon.
  run_name :
      (pre name suf : Bytes) (r : Parser) (w : Script)
      → name ≢ []
      → All is_name name
      → run pe tail pre (name ++ (b':' ∷ suf)) st15 r w
        ≡ run pe tail
            ((pre ++ name) ++ (b':' ∷ []))
            suf
            st18
            (record r { field_start = length pre; field_len = length name })
            w
  unfolding dispatch perform callbacks
  run_name pre [] suf r w n a = absurd (n refl)
  run_name pre (c ∷ name) suf r w n a =
      let started = record r { field_start = length pre } in
      let named = record r { field_start = length pre; field_len = length (c ∷ name) } in
      run_marked pe tail pre c name (b':' ∷ suf) st15 st17 st17 r started w tr21
        (ground (arith, name_byte-is_name tr21 c)) (λ b. refl) (Quiet-name name a.1)
      ∙ run_marked pe tail (pre ++ (c ∷ name)) b':' [] suf st17 st18 st18 started named w tr16 refl
          (λ b. rw (sub_size-append pre (c ∷ name))) refl

  pub header_Leads :
      (h : Header) (pre suf : Bytes) (r : Parser) (w : Script)
      → IsHeader h
      → Leads pe tail pre
          (print_header h suf)
          st15
          r
          w
          suf
          st15
          (with_field (header h.name) (field_value h.name h.text) w)
  unfolding dispatch
  header_Leads h pre suf r w i =
      let mid = replicate h.spaces 32 in
      let named = record r { field_start = length pre; field_len = length h.name } in
      let (k, spaces) =
        run_spaces h.spaces ((pre ++ h.name) ++ (b':' ∷ [])) (h.text ++ (13 ∷ 10 ∷ suf)) named w in
      let (r', text) =
        run_text pre h.name mid h.text (10 ∷ suf) (record r { mark = k }) w i.text_starts
          i.text_bytes in
      let read = (before' pre h.name mid ++ h.text) ++ (0 ∷ []) in
      let w' = with_field (header (until_nul h.name)) (field_value (until_nul h.name) h.text) w in
      record {
        read = read ++ (10 ∷ []);
        parser = r';
        runs =
            run_name pre h.name (mid ++ (h.text ++ (13 ∷ 10 ∷ suf))) r w i.name_ne i.name_bytes
            ∙ spaces
            ∙ rw (append_assoc (pre ++ h.name) (b':' ∷ []) mid) text
            ∙ run-Quiet pe tail (10 ∷ []) read suf st14 st15 r' w' line_feed
            ∙ rw (until_nul_name h.name i.name_bytes);
        counted = omega (
          arith,
          length-append read (10 ∷ []),
          length-append (before' pre h.name mid ++ h.text) (0 ∷ []),
          length-append (before' pre h.name mid) h.text,
          length-append (pre ++ h.name) (0 ∷ mid),
          length-append pre h.name,
          length-append h.name (b':' ∷ (mid ++ (h.text ++ (13 ∷ 10 ∷ suf)))),
          length-append mid (h.text ++ (13 ∷ 10 ∷ suf)),
          length-append h.text (13 ∷ 10 ∷ suf),
        );
      }

  -- The script's state with the fields of the header lines.
  pub headers_Leads :
      (hs : List Header) (pre suf : Bytes) (r : Parser) (w : Script)
      → AllHeaders hs
      → Leads pe tail pre (print_headers hs suf) st15 r w suf st15 (with_headers hs w)
  headers_Leads [] pre suf r w a = record { read = pre; parser = r; runs = refl; counted = refl }
  headers_Leads (h ∷ hs) pre suf r w (i, a) =
      let first = header_Leads h pre (print_headers hs suf) r w i in
      let rest =
        headers_Leads hs first.read suf first.parser
          (with_field (header h.name) (field_value h.name h.text) w) a in
      record {
        read = rest.read;
        parser = rest.parser;
        runs = first.runs ∙ rest.runs;
        counted = rest.counted ∙ first.counted;
      }
