-- ===== src/Http/Request/Data.antt =====
-- A request as data, its text, and the object that the binding hands to the script: an independent
-- description of what http11_parser.c and http11neko.c do together.
use caffeine_hx.Common.{
  ℕ, ◌≤◌, ◌≡◌, ◌≢◌, Bool, true, not, ◌||◌, List, [], ◌∷◌, ◌++◌, Option, none, some, map, length,
  replicate, ◌==◌,
}
use caffeine_hx.Http.Neko.{
  Bytes, Key, Value, Object, request_method, request_uri, request_path, query_string, http_version,
  header, string, set_field,
}
use caffeine_hx.Http.Request.Bytes.{is_digit, is_method, is_name, is_hex, is_query, is_path}
use caffeine_hx.Http.Request.Field.{field_value}

-- A header line: its name, the spaces behind the colon, its text.
pub record Header : Type 0 where
  pub name : Bytes
  pub spaces : ℕ
  pub text : Bytes

-- A request for a path: `path` is what follows the first slash, `query` what follows a `?`.
pub record Request : Type 0 where
  pub method : Bytes
  pub path : Bytes
  pub query : Option Bytes
  pub major : Bytes
  pub minor : Bytes
  pub headers : List Header

abbrev pub All : (ℕ → Bool) → Bytes → Type 0
All p [] = Unit
All p (c ∷ cs) = (p c ≡ true) × All p cs

-- Bytes that stand for themselves, and `%` escapes.
pub data Word (plain : ℕ → Bool) : Bytes → Type 0 where
  nil : Word plain []
  byte : {c : ℕ} {w : Bytes} → plain c ≡ true → Word plain w → Word plain (c ∷ w)
  escape :
      {h l : ℕ} {w : Bytes}
      → is_hex h ≡ true
      → is_hex l ≡ true
      → Word plain w
      → Word plain (37 ∷ h ∷ l ∷ w)

-- A byte of a header's text: neither the carriage return nor NUL.
abbrev pub is_text : ℕ → Bool
is_text c = not (c == 13 || c == 0)

-- The text has a byte, and the first one is no space.
abbrev pub Starts : Bytes → Type 0
Starts [] = ⊥
Starts (c ∷ cs) = c ≢ 32

pub record IsHeader (h : Header) : Type 0 where
  pub name_ne : h.name ≢ []
  pub name_bytes : All is_name h.name
  pub text_starts : Starts h.text
  pub text_bytes : All is_text h.text

abbrev pub AllHeaders : List Header → Type 0
AllHeaders [] = Unit
AllHeaders (h ∷ hs) = IsHeader h × AllHeaders hs

abbrev pub IsQuery : Option Bytes → Type 0
IsQuery none = Unit
IsQuery (some q) = Word is_query q

-- The requests that are covered: a method of 1 to 20 bytes, a path with an optional query, a version
-- of two numbers, headers with a text.
pub record IsRequest (q : Request) : Type 0 where
  pub method_ne : q.method ≢ []
  pub method_short : length q.method ≤ 20
  pub method_bytes : All is_method q.method
  pub path_word : Word is_path q.path
  pub query_word : IsQuery q.query
  pub major_ne : q.major ≢ []
  pub major_digits : All is_digit q.major
  pub minor_ne : q.minor ≢ []
  pub minor_digits : All is_digit q.minor
  pub headers_fit : AllHeaders q.headers

-- The text of the parts, each with what follows it.
abbrev pub print_query : Option Bytes → Bytes → Bytes
print_query none rest = rest
print_query (some q) rest = b'?' ∷ (q ++ rest)

abbrev pub slash_path : Request → Bytes
slash_path q = b'/' ∷ q.path

abbrev pub version : Request → Bytes
version q = b'H' ∷ b'T' ∷ b'T' ∷ b'P' ∷ b'/' ∷ (q.major ++ (b'.' ∷ q.minor))

abbrev pub print_header : Header → Bytes → Bytes
print_header h rest = h.name ++ (b':' ∷ (replicate h.spaces 32 ++ (h.text ++ (13 ∷ 10 ∷ rest))))

abbrev pub print_headers : List Header → Bytes → Bytes
print_headers [] rest = rest
print_headers (h ∷ hs) rest = print_header h (print_headers hs rest)

-- The headers, the empty line, and what follows it.
abbrev pub print_rest : List Header → Bytes → Bytes
print_rest hs rest = print_headers hs (13 ∷ 10 ∷ rest)

-- The request with the body behind it.
abbrev pub print : Request → Bytes → Bytes
print q body =
    q.method
    ++ (32
        ∷ (slash_path q
            ++ print_query q.query (32 ∷ (version q ++ (13 ∷ 10 ∷ print_rest q.headers body)))))

-- The fields that a header and a query give.
abbrev pub header_field : Header → Key × Value
header_field h = (header h.name, field_value h.name h.text)

abbrev pub query_fields : Option Bytes → Object
query_fields none = []
query_fields (some q) = (query_string, string q) ∷ []

-- The fields in the order in which they are set. REQUEST_URI is the path alone, also where there is a query.
abbrev pub fields : Request → Object
fields q =
    (request_method, string q.method)
    ∷ (request_path, string (slash_path q))
    ∷ (query_fields q.query
        ++ ((request_uri, string (slash_path q))
            ∷ (http_version, string (version q))
            ∷ map header_field q.headers))

-- Fields set in a row: a later one replaces an earlier one of its name.
abbrev pub set_all : Object → Object → Object
set_all o [] = o
set_all o ((k, v) ∷ kvs) = set_all (set_field k v o) kvs

-- The object handed to the script.
abbrev pub reported : Request → Object
reported q = set_all [] (fields q)
