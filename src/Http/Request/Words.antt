-- ===== src/Http/Request/Words.antt =====
-- The words of a request, byte by byte through the switch of http11_parser.c.
use caffeine_hx.Common.{ℕ, suc, ◌+◌, ◌≡◌, ◌≢◌, refl, Bool, true, [], ◌∷◌, ◌++◌, length, arith}
use caffeine_hx.Http.Dispatch.{dispatch}
use caffeine_hx.Http.Neko.{Bytes, until_nul}
use caffeine_hx.Http.Request.Bytes.{
  is_digit, is_method, is_name, is_hex, is_query, is_path, room, after_method, dispatch_method,
  name_byte-is_name, hex_byte-is_hex, uri_byte-is_uri,
}
use caffeine_hx.Http.Request.Data.{All, Word, nil, byte, escape, is_text}
use caffeine_hx.Http.Request.Step.{Quiet}
use caffeine_hx.Http.State.{
  State, st6, st7, st8, st9, st10, st11, st12, st13, st17, st19, st24, st25, st26, st31, st32, st33,
  st,
}

until_nul-All :
    (p : ℕ → Bool) (w : Bytes) → ((c : ℕ) → p c ≡ true → c ≢ 0) → All p w → until_nul w ≡ w
until_nul-All p [] f a = refl
until_nul-All p (c ∷ w) f a = ground (arith, f c a.0, until_nul-All p w f a.1)

pub until_nul_method : (w : Bytes) → All is_method w → until_nul w ≡ w
until_nul_method w a = until_nul-All is_method w (λ c h. ground arith) a

pub until_nul_name : (w : Bytes) → All is_name w → until_nul w ≡ w
until_nul_name w a = until_nul-All is_name w (λ c h. ground arith) a

pub until_nul_text : (w : Bytes) → All is_text w → until_nul w ≡ w
until_nul_text w a = until_nul-All is_text w (λ c h. ground arith) a

pub until_nul_query : {w : Bytes} → Word is_query w → until_nul w ≡ w
until_nul_query nil = refl
until_nul_query (byte h t) = ground (arith, until_nul_query t)
until_nul_query (escape h l t) = ground (arith, until_nul_query t)

pub until_nul_path : {w : Bytes} → Word is_path w → until_nul w ≡ w
until_nul_path nil = refl
until_nul_path (byte h t) = ground (arith, until_nul_path t)
until_nul_path (escape h l t) = ground (arith, until_nul_path t)

-- Where a method of `length w` more bytes ends, from a state with room for them.
pub after_word : State → Bytes → State
after_word s [] = s
after_word s (c ∷ w) = after_word (after_method s) w

pub Quiet-method :
    (s : State) (w : Bytes) (k : ℕ)
    → room s ≡ suc (length w + k)
    → All is_method w
    → Quiet s w (after_word s w) × (room (after_word s w) ≡ suc k)
unfolding after_word
Quiet-method s [] k e a = (refl, omega arith)
Quiet-method s (c ∷ w) k e a =
    let (d, n, r) = dispatch_method s c (length w + k) (omega arith) a.0 in
    let (q, l) = Quiet-method (after_method s) w k r a.1 in ((after_method s, d, n, q), l)

pub Quiet-path : {w : Bytes} → Word is_path w → Quiet st24 w st24
unfolding dispatch
Quiet-path nil = refl
Quiet-path (byte {c} h t) =
    (st24, ground (arith, uri_byte-is_uri (st st24) c), ground arith, Quiet-path t)
Quiet-path (escape {h = a} {l = b} h l t) = (
  st25,
  refl,
  ground arith,
  (
    st26,
    ground (arith, hex_byte-is_hex (st st26) a),
    ground arith,
    (st24, ground (arith, hex_byte-is_hex (st st24) b), ground arith, Quiet-path t),
  ),
)

pub Quiet-query : {w : Bytes} → Word is_query w → Quiet st31 w st31
unfolding dispatch
Quiet-query nil = refl
Quiet-query (byte {c} h t) =
    (st31, ground (arith, uri_byte-is_uri (st st31) c), ground arith, Quiet-query t)
Quiet-query (escape {h = a} {l = b} h l t) = (
  st32,
  refl,
  ground arith,
  (
    st33,
    ground (arith, hex_byte-is_hex (st st33) a),
    ground arith,
    (st31, ground (arith, hex_byte-is_hex (st st31) b), ground arith, Quiet-query t),
  ),
)

-- Behind the `%` of an escape.
pub Quiet-escape :
    (a b : ℕ) {w : Bytes}
    → is_hex a ≡ true
    → is_hex b ≡ true
    → Word is_query w
    → Quiet st32 (a ∷ b ∷ w) st31
unfolding dispatch
Quiet-escape a b h l t = (
  st33,
  ground (arith, hex_byte-is_hex (st st33) a),
  ground arith,
  (st31, ground (arith, hex_byte-is_hex (st st31) b), ground arith, Quiet-query t),
)

pub Quiet-name : (w : Bytes) → All is_name w → Quiet st17 w st17
unfolding dispatch
Quiet-name [] a = refl
Quiet-name (c ∷ w) a =
    (st17, ground (arith, name_byte-is_name (st st17) c), ground arith, Quiet-name w a.1)

pub Quiet-text : (w : Bytes) → All is_text w → Quiet st19 w st19
unfolding dispatch
Quiet-text [] a = refl
Quiet-text (c ∷ w) a = (st19, ground arith, ground arith, Quiet-text w a.1)

Quiet-minor : (w : Bytes) → All is_digit w → Quiet st13 w st13
unfolding dispatch
Quiet-minor [] a = refl
Quiet-minor (c ∷ w) a = (st13, ground arith, ground arith, Quiet-minor w a.1)

-- The digits behind the first one of the major number, the dot and the minor number.
Quiet-major :
    (w v : Bytes) → All is_digit w → v ≢ [] → All is_digit v → Quiet st11 (w ++ (b'.' ∷ v)) st13
unfolding dispatch
Quiet-major [] [] a n b = absurd (n refl)
Quiet-major [] (d ∷ v) a n b =
    (st12, refl, ground arith, (st13, ground arith, ground arith, Quiet-minor v b.1))
Quiet-major (c ∷ w) v a n b = (st11, ground arith, ground arith, Quiet-major w v a.1 n b)

-- `TTP/` and the version number.
pub Quiet-version :
    (major minor : Bytes)
    → major ≢ []
    → All is_digit major
    → minor ≢ []
    → All is_digit minor
    → Quiet st6 (b'T' ∷ b'T' ∷ b'P' ∷ b'/' ∷ (major ++ (b'.' ∷ minor))) st13
unfolding dispatch
Quiet-version [] minor n a m b = absurd (n refl)
Quiet-version (c ∷ w) minor n a m b = (
  st7,
  refl,
  ground arith,
  (
    st8,
    refl,
    ground arith,
    (
      st9,
      refl,
      ground arith,
      (st10, refl, ground arith, (st11, ground arith, ground arith, Quiet-major w minor a.1 m b)),
    ),
  ),
)

until_nul_digits : (w : Bytes) → All is_digit w → until_nul w ≡ w
until_nul_digits w a = until_nul-All is_digit w (λ c h. ground arith) a

until_nul_number :
    (w v : Bytes) → All is_digit w → All is_digit v → until_nul (w ++ (b'.' ∷ v)) ≡ w ++ (b'.' ∷ v)
until_nul_number [] v a b = rw (until_nul_digits v b)
until_nul_number (c ∷ w) v a b = ground (arith, until_nul_number w v a.1 b)

pub until_nul_version :
    (major minor : Bytes)
    → All is_digit major
    → All is_digit minor
    → until_nul (b'H' ∷ b'T' ∷ b'T' ∷ b'P' ∷ b'/' ∷ (major ++ (b'.' ∷ minor)))
      ≡ b'H' ∷ b'T' ∷ b'T' ∷ b'P' ∷ b'/' ∷ (major ++ (b'.' ∷ minor))
until_nul_version major minor a b = rw (until_nul_number major minor a b)
