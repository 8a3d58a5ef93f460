-- ===== src/Http/Tests.antt =====
-- Runs of the parser on concrete requests, and the theorems at concrete inputs.
use Prim.Native.Char.{code}
use Prim.Native.String.{String}
use caffeine_hx.Common.{
  ℕ, ◌↔◌, ◌⊎◌, ◌≢◌, inl, ltb, ◌&&◌, ◌==◌, ◌≡◌, refl, [], ◌∷◌, some, true, length, arith,
}
use caffeine_hx.Common.Int.{pos}
use caffeine_hx.Http.Execute.{loop}
use caffeine_hx.Http.Neko.{
  Bytes, callbacks, httpp_execute, httpp_finish, httpp_has_error, httpp_init, value, aborted, Ran,
}
use caffeine_hx.Http.Offsets.{LoopEnds, loop-Ends}
use caffeine_hx.Http.Request.Data.{Header, Request, print}
use caffeine_hx.Http.State.{st0}
use caffeine_hx.Http.Polled.{httpp_execute-polls}
use caffeine_hx.Http.Total.{Says, httpp_execute-Verdict, httpp_execute-aborted, start, start-Inside}

abbrev codes : String → Bytes
codes String.[] = []
codes (String.◌∷◌ c s) = code c ∷ codes s

-- GET /a?c=1 HTTP/1.1 with one header
abbrev host : Header
host = record { name = codes "Host"; spaces = 1; text = codes "x" }

abbrev get : Request
get = record {
  method = codes "GET";
  path = codes "a";
  query = some (codes "c=1");
  major = codes "1";
  minor = codes "1";
  headers = host ∷ [];
}

abbrev body : Bytes
body = codes "body"

httpp_execute-Verdict_example :
    Says 36 (httpp_execute (some httpp_init) (print get body) (pos 36) true)
httpp_execute-Verdict_example =
    httpp_execute-Verdict httpp_init (print get body) 36 (omega arith) (omega arith) refl

httpp_execute-aborted_example :
    (httpp_execute (some httpp_init) (print get body) (pos 0) true ≡ aborted)
    ↔ (◌≡◌ {A = ℕ} 0 0 ⊎ ◌≢◌ {A = ℕ} 71 0)
httpp_execute-aborted_example =
    httpp_execute-aborted httpp_init (print get body) 0 71 (omega arith) refl

loop-Ends_example : LoopEnds 5 6 (loop callbacks 5 5 0 st0 (start httpp_init (codes "GET /")))
loop-Ends_example =
    loop-Ends 5 6 5 0 st0 (start httpp_init (codes "GET /")) refl (omega arith) (ground arith)
      (ground arith) (start-Inside httpp_init (codes "GET /") 5 (omega arith)) (inl refl)

httpp_execute-polls_example :
    (x : Ran) × (httpp_execute (some httpp_init) (codes "GET /") (pos 5) true ≡ value x)
    × (httpp_finish (some x.parser) ≡ value (x.parser, ltb 0 (length x.called)))
    × (httpp_has_error (some x.parser)
        ≡ value (x.parser, ltb x.parser.nread 5 && length x.called == 0))
httpp_execute-polls_example =
    httpp_execute-polls httpp_init (codes "GET /") 5 (omega arith) (omega arith) refl
