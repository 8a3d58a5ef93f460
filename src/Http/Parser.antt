-- ===== src/Http/Parser.antt =====
-- The parser of http11_parser.h and http11_parser.c. The buffer is the list of its bytes, its last
-- one the NUL; a pointer into it is an index. The callbacks may write to the buffer.
use caffeine_hx.Common.{
  ℕ, ◌+◌, ◌-◌, ◌%◌, ◌^◌, Bool, true, false, List, Option, none, some, leb, if◌then◌else◌,
}
use caffeine_hx.Http.State.{State, st0, st1, st53}

-- The numbers of `struct http_parser`.
pub record Parser : Type 0 where
  pub cs : State
  pub body_start : ℕ
  pub content_len : ℕ
  pub nread : ℕ
  pub mark : ℕ
  pub field_start : ℕ
  pub field_len : ℕ
  pub query_start : ℕ

-- What the callbacks act on: the buffer, and state of their own.
pub record Env (W : Type 0) : Type 0 where
  pub buffer : List ℕ
  pub world : W

-- `element_cb` (at, length) and `field_cb` (field, flen, value, vlen).
abbrev pub ElementCb : Type 0 → Type 0
ElementCb W = ℕ → ℕ → Env W → Env W

abbrev pub FieldCb : Type 0 → Type 0
FieldCb W = ℕ → ℕ → ℕ → ℕ → Env W → Env W

-- The callbacks of `struct http_parser`; `none` is NULL.
pub record Callbacks (W : Type 0) : Type 0 where
  pub http_field : Option (FieldCb W)
  pub request_method : Option (ElementCb W)
  pub request_uri : Option (ElementCb W)
  pub request_path : Option (ElementCb W)
  pub query_string : Option (ElementCb W)
  pub http_version : Option (ElementCb W)
  pub header_done : Option (ElementCb W)

-- `size_t` arithmetic on values below 2 ^ 64.
abbrev pub size_mod : ℕ
size_mod = 2 ^ 64

abbrev pub sub_size : ℕ → ℕ → ℕ
sub_size a b = if leb b a then a - b else a + size_mod - b

abbrev pub add_size : ℕ → ℕ → ℕ
add_size a b = (a + b) % size_mod

-- `if(parser->cb != NULL) parser->cb(parser, parser->data, PTR_TO(at), LEN(at, p))`
abbrev pub call : {W : Type 0} → Option (ElementCb W) → ℕ → ℕ → Env W → Env W
call none at length e = e
call (some f) at length e = f at length e

abbrev pub call_field : {W : Type 0} → Option (FieldCb W) → ℕ → ℕ → ℕ → ℕ → Env W → Env W
call_field none field flen value vlen e = e
call_field (some f) field flen value vlen e = f field flen value vlen e

-- `http_parser_init`: everything but `query_start` is cleared.
unfoldable pub http_parser_init : Parser → Parser
http_parser_init r = record r {
  cs = st0;
  body_start = 0;
  content_len = 0;
  mark = 0;
  nread = 0;
  field_len = 0;
  field_start = 0;
}

unfoldable pub http_parser_has_error : Parser → Bool
http_parser_has_error r = elim r.cs [ st1 ↦ true | _ ↦ false ]

unfoldable pub http_parser_is_finished : Parser → Bool
http_parser_is_finished r = elim r.cs [ st53 ↦ true | _ ↦ false ]

-- The result of `http_parser_finish`: -1, 1 or 0.
pub data Finish : Type 0 where
  failed complete incomplete : Finish

-- `cs` is copied out and back, so the parser is unchanged.
unfoldable pub http_parser_finish : Parser → Parser × Finish
unfolding http_parser_has_error http_parser_is_finished
http_parser_finish r = (
  record r { cs = r.cs },
  (if http_parser_has_error r
      then failed
      else if http_parser_is_finished r
      then complete
      else incomplete),
)
