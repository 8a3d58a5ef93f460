-- ===== src/Http/Request/Parse.antt =====
-- A whole request: httpp_execute (http11neko.c over http11_parser.c) on the text of a request.
use caffeine_hx.Common.{ℕ, ◌+◌, ◌-◌, [], ◌∷◌, ◌++◌, some, length}
use caffeine_hx.Http.Execute.{Machine, Outcome, returned}
use caffeine_hx.Http.Neko.{
  Bytes, Object, Script, on_header_done, request_method, request_path, request_uri, http_version,
  string,
}
use caffeine_hx.Http.Parser.{Parser}
use caffeine_hx.Http.Request.Data.{Request, query_fields, slash_path, version}
use caffeine_hx.Http.Request.Headers.{with_headers}
use caffeine_hx.Http.Request.Phases.{with_uri}
use caffeine_hx.Http.Request.Step.{with_field}
use caffeine_hx.Http.State.{State}

module _ (pe : ℕ) (tail : Bytes) where
  -- The machine behind the line feed that ends the headers.
  abbrev finished : Bytes → Bytes → Parser → Script → Machine Script
  finished read body r w = record {
    parser = record r { body_start = length (read ++ (13 ∷ [])) + 1 };
    env =
        on_header_done (length (read ++ (13 ∷ [])) + 1) (pe - length (read ++ (13 ∷ [])) - 1)
          (record { buffer = (read ++ (13 ∷ [])) ++ (10 ∷ (body ++ tail)); world = w });
  }

-- The script's state when the headers are read.
abbrev asked : Request → Script
asked q = with_field http_version (string (version q)) (
    with_uri q.path q.query
      (with_field request_method (string q.method) (record { neko_val = some []; called = [] })))

abbrev final : Request → Script
final q = with_headers q.headers (asked q)

-- The fields of the request line.
abbrev line_fields : Request → Object
line_fields q =
    (request_method, string q.method)
    ∷ (request_path, string (slash_path q))
    ∷ (query_fields q.query
        ++ ((request_uri, string (slash_path q)) ∷ (http_version, string (version q)) ∷ []))

abbrev result_or : {A : Type 0} → Outcome A → A → A
result_or (returned a) d = a
result_or _ d = d
