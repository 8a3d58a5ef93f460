-- ===== src/Http/Neko.antt =====
-- The Neko binding of the parser (dll_src/httpp/src/http11neko.c): the callbacks that fill the
-- object handed to the script, and the exported functions.
use caffeine_hx.Common.{
  ℕ, ◌+◌, ◌*◌, ◌-◌, ◌%◌, ◌^◌, ltb, suc, Bool, true, false, ◌&&◌, ◌||◌, List, [], ◌∷◌, ◌++◌, Option,
  none, some, set, drop, leb, ◌==◌, if◌then◌else◌,
}
use caffeine_hx.Common.Int.{ℤ, pos, negsuc, neg_of, to_size}
use caffeine_hx.Http.State.{st0}
use caffeine_hx.Http.Parser.{
  Parser, Env, Callbacks, http_parser_init, http_parser_has_error, http_parser_is_finished,
  http_parser_finish,
}
use caffeine_hx.Http.Execute.{
  Machine, Outcome, returned, assert_failed, out_of_bounds, http_parser_execute,
}

abbrev pub Bytes : Type 0
Bytes = List ℕ

-- The bytes of a C string, up to its NUL: what `alloc_string` and `val_id` read.
abbrev pub until_nul : Bytes → Bytes
until_nul [] = []
until_nul (c ∷ cs) = let rest = until_nul cs in if c == 0 then [] else c ∷ rest

abbrev pub c_string : Bytes → ℕ → Bytes
c_string buffer at = until_nul (drop at buffer)

-- `isspace` and the digits that `atoi` reads. A value that does not fit an `int` has no behaviour
-- in C; here it is the number.
abbrev pub is_space : ℕ → Bool
is_space c = c == 32 || (leb 9 c && leb c 13)

unfoldable pub digits_from : ℕ → Bytes → ℕ
digits_from n [] = n
digits_from n (c ∷ cs) =
    let rest = digits_from (n * 10 + (c - 48)) cs in if leb 48 c && leb c 57 then rest else n

unfoldable pub atoi_signed : Bytes → ℤ
unfolding digits_from neg_of
atoi_signed [] = pos 0
atoi_signed (c ∷ cs) =
    if c == 45
    then neg_of (digits_from 0 cs)
    else if c == 43
    then pos (digits_from 0 cs)
    else pos (digits_from 0 (c ∷ cs))

unfoldable pub atoi : Bytes → ℤ
unfolding atoi_signed
atoi [] = pos 0
atoi (c ∷ cs) = let rest = atoi cs in if is_space c then rest else atoi_signed (c ∷ cs)

-- `strncmp(s, prefix, length prefix) == 0`
unfoldable pub has_prefix : Bytes → Bytes → Bool
has_prefix [] s = true
has_prefix (c ∷ cs) [] = false
has_prefix (c ∷ cs) (d ∷ ds) = c == d && has_prefix cs ds

abbrev pub content_length : Bytes
content_length =
    b'C' ∷ b'o' ∷ b'n' ∷ b't' ∷ b'e' ∷ b'n' ∷ b't' ∷ b'-' ∷ b'L' ∷ b'e' ∷ b'n' ∷ b'g' ∷ b't' ∷ b'h'
    ∷ []

-- The names of the fields that the element callbacks set.
pub data Key : Type 0 where
  request_method request_uri request_path query_string http_version : Key
  header : Bytes → Key

pub data Value : Type 0 where
  string : Bytes → Value
  int : ℤ → Value

-- `val_id` of a name, which tells names apart.
abbrev pub key_name : Key → Bytes
key_name request_method =
    b'R' ∷ b'E' ∷ b'Q' ∷ b'U' ∷ b'E' ∷ b'S' ∷ b'T' ∷ b'_' ∷ b'M' ∷ b'E' ∷ b'T' ∷ b'H' ∷ b'O' ∷ b'D'
    ∷ []
key_name request_uri =
    b'R' ∷ b'E' ∷ b'Q' ∷ b'U' ∷ b'E' ∷ b'S' ∷ b'T' ∷ b'_' ∷ b'U' ∷ b'R' ∷ b'I' ∷ []
key_name request_path =
    b'R' ∷ b'E' ∷ b'Q' ∷ b'U' ∷ b'E' ∷ b'S' ∷ b'T' ∷ b'_' ∷ b'P' ∷ b'A' ∷ b'T' ∷ b'H' ∷ []
key_name query_string =
    b'Q' ∷ b'U' ∷ b'E' ∷ b'R' ∷ b'Y' ∷ b'_' ∷ b'S' ∷ b'T' ∷ b'R' ∷ b'I' ∷ b'N' ∷ b'G' ∷ []
key_name http_version =
    b'H' ∷ b'T' ∷ b'T' ∷ b'P' ∷ b'_' ∷ b'V' ∷ b'E' ∷ b'R' ∷ b'S' ∷ b'I' ∷ b'O' ∷ b'N' ∷ []
key_name (header name) = name

abbrev pub same_bytes : Bytes → Bytes → Bool
same_bytes [] [] = true
same_bytes (c ∷ cs) (d ∷ ds) = c == d && same_bytes cs ds
same_bytes _ _ = false

-- `alloc_int`: an int of Neko has 31 bits.
unfoldable pub alloc_int : ℤ → ℤ
unfolding neg_of
alloc_int (pos n) = let m = n % 2 ^ 31 in if ltb m (2 ^ 30) then pos m else neg_of (2 ^ 31 - m)
alloc_int (negsuc n) =
    let m = suc n % 2 ^ 31 in if leb m (2 ^ 30) then neg_of m else pos (2 ^ 31 - m)

-- The fields set on a Neko object, the first one first, no two of one name.
abbrev pub Object : Type 0
Object = List (Key × Value)

-- The value of a name that is set is replaced.
unfoldable pub set_field : Key → Value → Object → Object
set_field k v [] = (k, v) ∷ []
set_field k v ((k', v') ∷ o) =
    let rest = set_field k v o in
    if same_bytes (key_name k) (key_name k') then (k', v) ∷ o else (k', v') ∷ rest

-- `neko_val` (`none` is NULL) and the objects that the script's function `neko_cb` was called with.
pub record Script : Type 0 where
  pub neko_val : Option Object
  pub called : List Object

-- `*(buffer + at) = '\0'`
abbrev pub put_nul : ℕ → Env Script → Env Script
put_nul at e = record e { buffer = set e.buffer at 0 }

-- `alloc_field` on an object, or on NULL
abbrev pub add_field : Key → Value → Option Object → Option Object
add_field k v none = none
add_field k v (some o) = some (set_field k v o)

-- `alloc_field(p->neko_val, key, v)`
abbrev pub alloc_field : Key → Value → Env Script → Env Script
alloc_field k v e = record e {
  world = record e.world { neko_val = add_field k v e.world.neko_val };
}

-- `http_field`: the two writes, then `Content-Length` by its number and any other by its text.
unfoldable pub on_field : ℕ → ℕ → ℕ → ℕ → Env Script → Env Script
unfolding has_prefix alloc_int atoi
on_field field flen val vlen e =
    let e' = put_nul (val + vlen) (put_nul (field + flen) e) in
    let name = c_string e'.buffer field in
    let value = c_string e'.buffer val in
    alloc_field (header name)
      (if has_prefix content_length name then int (alloc_int (atoi value)) else string value) e'

-- `request_method`, `request_uri`, `request_path`, `query_string`, `http_version`: the write, then
-- the field is set to the C string at `at`.
unfoldable pub on_element : Key → ℕ → ℕ → Env Script → Env Script
on_element k at length e =
    let e' = put_nul (at + length) e in alloc_field k (string (c_string e'.buffer at)) e'

-- `header_done`: the script's function is called with the object.
unfoldable pub on_header_done : ℕ → ℕ → Env Script → Env Script
on_header_done at length e = record e {
  world = record e.world {
    called = e.world.called ++ (elim e.world.neko_val [ none ↦ [] | some o ↦ o ∷ [] ]);
  };
}

-- The callbacks that `httpp_init` installs.
unfoldable pub callbacks : Callbacks Script
unfolding on_field on_element on_header_done
callbacks = record {
  http_field = some on_field;
  request_method = some (on_element request_method);
  request_uri = some (on_element request_uri);
  request_path = some (on_element request_path);
  query_string = some (on_element query_string);
  http_version = some (on_element http_version);
  header_done = some on_header_done;
}

-- `calloc` and `http_parser_init`: the parser that `httpp_init` wraps.
unfoldable pub httpp_init : Parser
unfolding http_parser_init
httpp_init = http_parser_init (record {
  cs = st0;
  body_start = 0;
  content_len = 0;
  nread = 0;
  mark = 0;
  field_start = 0;
  field_len = 0;
  query_start = 0;
})

-- The end of a primitive: a value, an exception, an abort by an assertion, or no behaviour.
pub data Ended (A : Type 0) : Type 0 where
  value : A → Ended A
  neko_error : Ended A
  aborted : Ended A
  undefined : Ended A

-- A parser handle is `none` where `val_check_kind` fails.
unfoldable pub httpp_reset : Option Parser → Ended (Parser × Bool)
unfolding http_parser_init
httpp_reset none = neko_error
httpp_reset (some r) = value (http_parser_init r, true)

unfoldable pub httpp_finish : Option Parser → Ended (Parser × Bool)
unfolding http_parser_finish http_parser_is_finished
httpp_finish none = neko_error
httpp_finish (some r) = let r' = (http_parser_finish r).0 in value (r', http_parser_is_finished r')

unfoldable pub httpp_has_error : Option Parser → Ended (Parser × Bool)
unfolding http_parser_has_error
httpp_has_error none = neko_error
httpp_has_error (some r) = value (r, http_parser_has_error r)

-- What a run of the parser leaves: the parser, the Neko string (it is written in place), and the
-- objects that the script's function got. `neko_val` is NULL again.
pub record Ran : Type 0 where
  pub parser : Parser
  pub text : Bytes
  pub called : List Object

unfoldable pub ran : Outcome (ℕ × Machine Script) → Ended Ran
ran (returned (n, m)) =
    value (record { parser = m.parser; text = m.env.buffer; called = m.env.world.called })
ran assert_failed = aborted
ran out_of_bounds = undefined

-- `httpp_execute(parser, data, len, func)`: `data` is a Neko string, which a NUL follows, `len` is
-- an `int`, and `func` says whether the last argument is a function of one argument.
unfoldable pub httpp_execute : Option Parser → Bytes → ℤ → Bool → Ended Ran
unfolding http_parser_init http_parser_execute ran callbacks
httpp_execute none text len func = neko_error
httpp_execute (some r) text len false = neko_error
httpp_execute (some r) text len true = ran (
    http_parser_execute callbacks (to_size len) 0 (record {
      parser = http_parser_init r;
      env = record { buffer = text ++ 0 ∷ []; world = record { neko_val = some []; called = [] } };
    }))
