-- ===== src/Http/Polled.antt =====
-- httpp_finish and httpp_has_error (http11neko.c) behind httpp_execute.
use caffeine_hx.Common.{
  ℕ, ◌<◌, ◌^◌, ◌≡◌, ◌≢◌, refl, true, false, ◌&&◌, [], ◌∷◌, ◌++◌, some, length, get_elem?, ltb, ◌==◌,
  arith,
}
use caffeine_hx.Common.Int.{pos}
use caffeine_hx.Http.Neko.{Bytes, value, Ran, httpp_execute, httpp_finish, httpp_has_error}
use caffeine_hx.Http.Parser.{
  Parser, http_parser_finish, http_parser_has_error, http_parser_is_finished,
}
use caffeine_hx.Http.State.{st1, st53}
use caffeine_hx.Http.Total.{Verdict, refused, open_headers, complete, httpp_execute-Verdict}

not_finished : (r : Parser) → r.cs ≢ st53 → http_parser_is_finished r ≡ false
unfolding http_parser_is_finished
not_finished r h = ground arith

no_error : (r : Parser) → r.cs ≢ st1 → http_parser_has_error r ≡ false
unfolding http_parser_has_error
no_error r h = ground arith

finish-Verdict :
    (n : ℕ) (x : Ran) → Verdict n x → http_parser_is_finished x.parser ≡ ltb 0 (length x.called)
unfolding http_parser_is_finished
finish-Verdict n x (refused e l b c) = rw (e, c) refl
finish-Verdict n x (open_headers a e l b c) = rw (not_finished x.parser e, c) refl
finish-Verdict n x (complete o e l b k c) = rw (e, c) refl

error-Verdict :
    (n : ℕ) (x : Ran)
    → Verdict n x
    → http_parser_has_error x.parser ≡ (ltb x.parser.nread n && length x.called == 0)
unfolding http_parser_has_error
error-Verdict n x (refused e l b c) = ground arith
error-Verdict n x (open_headers a e l b c) = rw (no_error x.parser a) (ground arith)
error-Verdict n x (complete o e l b k c) = ground arith

-- A call of httpp_execute on `n` bytes, at least one and fewer than 2 ^ 64, behind which a NUL stands,
-- and the polls behind it: httpp_finish says true exactly where the script was called, httpp_has_error
-- exactly where it was not and bytes were left unread; neither changes the parser.
pub httpp_execute-polls :
    (r : Parser) (text : Bytes) (n : ℕ)
    → 0 < n
    → n < 2 ^ 64
    → get_elem? (text ++ 0 ∷ []) n ≡ some 0
    → (x : Ran) × (httpp_execute (some r) text (pos n) true ≡ value x)
      × (httpp_finish (some x.parser) ≡ value (x.parser, ltb 0 (length x.called)))
      × (httpp_has_error (some x.parser)
          ≡ value (x.parser, ltb x.parser.nread n && length x.called == 0))
unfolding httpp_finish httpp_has_error http_parser_finish
httpp_execute-polls r text n h small z =
    let (x, e, v) = httpp_execute-Verdict r text n h small z in
    (x, e, rw (finish-Verdict n x v) refl, rw (error-Verdict n x v) refl)
