-- ===== src/Http/Request/Bytes.antt =====
-- The classes of bytes of a request, written as sets, for the nested range tests of
-- http11_parser.c.
use caffeine_hx.Common.{
  ℕ, suc, ◌≡◌, ◌≢◌, refl, Bool, true, not, ◌&&◌, ◌||◌, leb, ◌==◌, if◌then◌else◌, arith,
}
use caffeine_hx.Http.Char.{within}
use caffeine_hx.Http.Dispatch.{dispatch, method_case, method_byte, name_byte, hex_byte, uri_byte}
use caffeine_hx.Http.State.{
  State, st1, st2, st34, st35, st36, st37, st38, st39, st40, st41, st42, st43, st44, st45, st46,
  st47, st48, st49, st50, st51, st52, Target, st, tr17,
}

abbrev pub is_digit : ℕ → Bool
is_digit c = within 48 57 c

-- `$`, `-`, `.`, `_`, digits and capitals
abbrev pub is_method : ℕ → Bool
is_method c = c == 36 || c == 45 || c == 46 || c == 95 || is_digit c || within 65 90 c

-- The `token` of RFC 2616, without the quote marks around it.
abbrev pub is_name : ℕ → Bool
is_name c =
    c == 33
    || within 35 39 c
    || c == 42
    || c == 43
    || c == 45
    || c == 46
    || is_digit c
    || within 65 90 c
    || within 94 122 c
    || c == 124
    || c == 126

abbrev pub is_hex : ℕ → Bool
is_hex c = is_digit c || within 65 70 c || within 97 102 c

-- All but controls, `"`, `#`, `<`, `>`, DEL: the bytes that no uri state refuses.
abbrev pub is_uri : ℕ → Bool
is_uri c = leb 32 c && not (c == 34 || c == 35 || c == 60 || c == 62 || c == 127)

-- A query byte that stands for itself: no space, no `%`.
abbrev pub is_query : ℕ → Bool
is_query c = is_uri c && not (c == 32 || c == 37)

-- A path byte that stands for itself: neither `;` nor `?` on top of that.
abbrev pub is_path : ℕ → Bool
is_path c = is_query c && not (c == 59 || c == 63)

-- The range tests for a method byte decide the set.
pub method_byte-is_method :
    (t : Target) (c : ℕ) → method_byte t c ≡ (if is_method c then t else st st1)
unfolding method_byte
method_byte-is_method t c = ground arith

-- The range tests on the bytes of a header name accept the token bytes of RFC 2616, and refuse all
-- others, whatever the accepting state.
pub name_byte-is_name : (t : Target) (c : ℕ) → name_byte t c ≡ (if is_name c then t else st st1)
unfolding name_byte
name_byte-is_name t c = ground arith

-- The range tests behind a `%` accept the hexadecimal digits, and refuse all other bytes.
pub hex_byte-is_hex : (t : Target) (c : ℕ) → hex_byte t c ≡ (if is_hex c then t else st st1)
unfolding hex_byte
hex_byte-is_hex t c = ground arith

-- The tests that the path, query and parameter states share refuse controls, `"`, `#`, `<`, `>` and
-- DEL, and accept all other bytes, also those above 127.
pub uri_byte-is_uri : (t : Target) (c : ℕ) → uri_byte t c ≡ (if is_uri c then t else st st1)
unfolding uri_byte
uri_byte-is_uri t c = ground arith

-- The room of a state: one more than the bytes of the method that it still accepts.
abbrev pub room : State → ℕ
room st2 = 20
room st34 = 19
room st35 = 18
room st36 = 17
room st37 = 16
room st38 = 15
room st39 = 14
room st40 = 13
room st41 = 12
room st42 = 11
room st43 = 10
room st44 = 9
room st45 = 8
room st46 = 7
room st47 = 6
room st48 = 5
room st49 = 4
room st50 = 3
room st51 = 2
room st52 = 1
room _ = 0

-- The state behind one more byte of the method.
abbrev pub after_method : State → State
after_method st2 = st34
after_method st34 = st35
after_method st35 = st36
after_method st36 = st37
after_method st37 = st38
after_method st38 = st39
after_method st39 = st40
after_method st40 = st41
after_method st41 = st42
after_method st42 = st43
after_method st43 = st44
after_method st44 = st45
after_method st45 = st46
after_method st46 = st47
after_method st47 = st48
after_method st48 = st49
after_method st49 = st50
after_method st50 = st51
after_method st51 = st52
after_method _ = st52

method_case-is_method : (s : State) (c : ℕ) → is_method c ≡ true → method_case s c ≡ st s
unfolding method_case method_byte
method_case-is_method s c h = ground arith

-- A state with room for a method byte goes on to the next state for each of them, and the room is one
-- less: from the first state, with room 20, a method has at most 20 bytes.
pub dispatch_method :
    (s : State) (c k : ℕ)
    → room s ≡ suc (suc k)
    → is_method c ≡ true
    → (dispatch s c ≡ st (after_method s))
      × (after_method s ≢ st1)
      × (room (after_method s) ≡ suc k)
unfolding dispatch
dispatch_method st2 c k e h = (method_case-is_method st34 c h, ground arith, ground arith)
dispatch_method st34 c k e h = (method_case-is_method st35 c h, ground arith, ground arith)
dispatch_method st35 c k e h = (method_case-is_method st36 c h, ground arith, ground arith)
dispatch_method st36 c k e h = (method_case-is_method st37 c h, ground arith, ground arith)
dispatch_method st37 c k e h = (method_case-is_method st38 c h, ground arith, ground arith)
dispatch_method st38 c k e h = (method_case-is_method st39 c h, ground arith, ground arith)
dispatch_method st39 c k e h = (method_case-is_method st40 c h, ground arith, ground arith)
dispatch_method st40 c k e h = (method_case-is_method st41 c h, ground arith, ground arith)
dispatch_method st41 c k e h = (method_case-is_method st42 c h, ground arith, ground arith)
dispatch_method st42 c k e h = (method_case-is_method st43 c h, ground arith, ground arith)
dispatch_method st43 c k e h = (method_case-is_method st44 c h, ground arith, ground arith)
dispatch_method st44 c k e h = (method_case-is_method st45 c h, ground arith, ground arith)
dispatch_method st45 c k e h = (method_case-is_method st46 c h, ground arith, ground arith)
dispatch_method st46 c k e h = (method_case-is_method st47 c h, ground arith, ground arith)
dispatch_method st47 c k e h = (method_case-is_method st48 c h, ground arith, ground arith)
dispatch_method st48 c k e h = (method_case-is_method st49 c h, ground arith, ground arith)
dispatch_method st49 c k e h = (method_case-is_method st50 c h, ground arith, ground arith)
dispatch_method st50 c k e h = (method_case-is_method st51 c h, ground arith, ground arith)
dispatch_method st51 c k e h = (method_case-is_method st52 c h, ground arith, ground arith)
dispatch_method _ c k e h = absurd (omega arith)

pub dispatch_method_end : (s : State) (k : ℕ) → room s ≡ suc k → dispatch s 32 ≡ tr17
unfolding dispatch method_case
dispatch_method_end st2 k e = refl
dispatch_method_end _ k e = ground arith
