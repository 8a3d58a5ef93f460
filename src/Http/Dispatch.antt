-- ===== src/Http/Dispatch.antt =====
-- The tests of http_parser_execute (dll_src/httpp/src/http11_parser.c): for a state and the byte
-- `*p`, the label that the code jumps to. `st st1` is `goto st1`, the error exit.
use caffeine_hx.Common.{ℕ, ◌==◌, if◌then◌else◌}
use caffeine_hx.Http.Char.{at_least, below, above, within}
use caffeine_hx.Http.State.{
  State, st0, st1, st2, st3, st4, st5, st6, st7, st8, st9, st10, st11, st12, st13, st14, st15, st16,
  st17, st18, st19, st20, st21, st22, st23, st24, st25, st26, st27, st28, st29, st30, st31, st32,
  st33, st34, st35, st36, st37, st38, st39, st40, st41, st42, st43, st44, st45, st46, st47, st48,
  st49, st50, st51, st52, st53, Target, st, tr3, tr10, tr11, tr12, tr13, tr14, tr16, tr17, tr19,
  tr21, tr22, tr25, tr28, tr31, tr33, tr34, tr36, tr37, tr38, tr39, tr40, tr41,
}

-- The test on `$`, `_`, `-`, `.`, digits and capitals that states 0, 2 and 34 to 51 share.
unfoldable pub method_byte : Target → ℕ → Target
method_byte t c =
    if c == 36
    then t
    else if c == 95
    then t
    else if below 48 c
    then (if within 45 46 c then t else st st1)
    else if above 57 c
    then (if within 65 90 c then t else st st1)
    else t

-- `case 2`, `case 34` .. `case 51`: a space ends the method, a method byte goes on to `t`.
unfoldable pub method_case : State → ℕ → Target
unfolding method_byte
method_case s c = if c == 32 then tr17 else method_byte (st s) c

-- The test of states 15 and 17 on the bytes of a header name.
unfoldable pub name_byte : Target → ℕ → Target
name_byte t c =
    if c == 33
    then t
    else if c == 124
    then t
    else if c == 126
    then t
    else if below 45 c
    then (if above 39 c
        then (if within 42 43 c then t else st st1)
        else if at_least 35 c
        then t
        else st st1)
    else if above 46 c
    then (if below 65 c
        then (if within 48 57 c then t else st st1)
        else if above 90 c
        then (if within 94 122 c then t else st st1)
        else t)
    else t

-- A hexadecimal digit: states 22, 23, 25, 26, 28, 29, 32 and 33.
unfoldable pub hex_byte : Target → ℕ → Target
hex_byte t c =
    if below 65 c
    then (if within 48 57 c then t else st st1)
    else if above 70 c
    then (if within 97 102 c then t else st st1)
    else t

-- The last tests of the uri states: `<`, `>`, DEL, controls, `"` and `#` are refused.
unfoldable pub uri_byte : Target → ℕ → Target
uri_byte t c =
    if c == 60
    then st st1
    else if c == 62
    then st st1
    else if c == 127
    then st st1
    else if above 31 c
    then (if within 34 35 c then st st1 else t)
    else if at_least 0 c
    then st st1
    else t

-- The request line up to the version: states 0, 2, 3, 4 and 5.
unfoldable pub line_case : State → ℕ → Target
unfolding method_case method_byte
line_case st0 c = method_byte tr14 c
line_case st2 c = method_case st34 c
line_case st3 c =
    if c == 42
    then tr10
    else if c == 43
    then tr11
    else if c == 47
    then tr12
    else if c == 58
    then tr13
    else if below 65 c
    then (if within 45 57 c then tr11 else st st1)
    else if above 90 c
    then (if within 97 122 c then tr11 else st st1)
    else tr11
line_case st4 c = if c == 32 then tr19 else st st1
line_case st5 c = if c == 72 then tr3 else st st1
line_case _ c = st st1

-- `HTTP/` digits `.` digits and the carriage return: states 6 to 13.
unfoldable pub version_case : State → ℕ → Target
version_case st6 c = if c == 84 then st st7 else st st1
version_case st7 c = if c == 84 then st st8 else st st1
version_case st8 c = if c == 80 then st st9 else st st1
version_case st9 c = if c == 47 then st st10 else st st1
version_case st10 c = if within 48 57 c then st st11 else st st1
version_case st11 c = if c == 46 then st st12 else if within 48 57 c then st st11 else st st1
version_case st12 c = if within 48 57 c then st st13 else st st1
version_case st13 c = if c == 13 then tr22 else if within 48 57 c then st st13 else st st1
version_case _ c = st st1

-- The line ends and the header lines: states 14 to 19 and 53.
unfoldable pub header_case : State → ℕ → Target
unfolding name_byte
header_case st14 c = if c == 10 then st st15 else st st1
header_case st15 c = if c == 13 then st st16 else name_byte tr21 c
header_case st16 c = if c == 10 then tr25 else st st1
header_case st17 c = if c == 58 then tr16 else name_byte (st st17) c
header_case st18 c = if c == 13 then tr36 else if c == 32 then tr38 else tr37
header_case st19 c = if c == 13 then tr36 else st st19
header_case _ c = st st1

-- A uri with a scheme: states 20 to 23.
unfoldable pub uri_case : State → ℕ → Target
unfolding uri_byte hex_byte
uri_case st20 c =
    if c == 43
    then st st20
    else if c == 58
    then st st21
    else if below 48 c
    then (if within 45 46 c then st st20 else st st1)
    else if above 57 c
    then (if above 90 c
        then (if within 97 122 c then st st20 else st st1)
        else if at_least 65 c
        then st st20
        else st st1)
    else st st20
uri_case st21 c = if c == 32 then tr19 else if c == 37 then st st22 else uri_byte (st st21) c
uri_case st22 c = hex_byte (st st23) c
uri_case st23 c = hex_byte (st st21) c
uri_case _ c = st st1

-- A path and its parameters: states 24 to 29.
unfoldable pub path_case : State → ℕ → Target
unfolding uri_byte hex_byte
path_case st24 c =
    if c == 32
    then tr31
    else if c == 37
    then st st25
    else if c == 59
    then tr33
    else if c == 63
    then tr34
    else uri_byte (st st24) c
path_case st25 c = hex_byte (st st26) c
path_case st26 c = hex_byte (st st24) c
path_case st27 c =
    if c == 32
    then tr19
    else if c == 37
    then st st28
    else if c == 63
    then st st30
    else uri_byte (st st27) c
path_case st28 c = hex_byte (st st29) c
path_case st29 c = hex_byte (st st27) c
path_case _ c = st st1

-- The query string: states 30 to 33.
unfoldable pub query_case : State → ℕ → Target
unfolding uri_byte hex_byte
query_case st30 c = if c == 32 then tr40 else if c == 37 then tr41 else uri_byte tr39 c
query_case st31 c = if c == 32 then tr28 else if c == 37 then st st32 else uri_byte (st st31) c
query_case st32 c = hex_byte (st st33) c
query_case st33 c = hex_byte (st st31) c
query_case _ c = st st1

-- The states that count the bytes of the method: 34 to 41.
unfoldable pub method_case_34_41 : State → ℕ → Target
unfolding method_case
method_case_34_41 st34 c = method_case st35 c
method_case_34_41 st35 c = method_case st36 c
method_case_34_41 st36 c = method_case st37 c
method_case_34_41 st37 c = method_case st38 c
method_case_34_41 st38 c = method_case st39 c
method_case_34_41 st39 c = method_case st40 c
method_case_34_41 st40 c = method_case st41 c
method_case_34_41 st41 c = method_case st42 c
method_case_34_41 _ c = st st1

-- States 42 to 47.
unfoldable pub method_case_42_47 : State → ℕ → Target
unfolding method_case
method_case_42_47 st42 c = method_case st43 c
method_case_42_47 st43 c = method_case st44 c
method_case_42_47 st44 c = method_case st45 c
method_case_42_47 st45 c = method_case st46 c
method_case_42_47 st46 c = method_case st47 c
method_case_42_47 st47 c = method_case st48 c
method_case_42_47 _ c = st st1

-- States 48 to 52; in the last one only the space is accepted.
unfoldable pub method_case_48_52 : State → ℕ → Target
unfolding method_case
method_case_48_52 st48 c = method_case st49 c
method_case_48_52 st49 c = method_case st50 c
method_case_48_52 st50 c = method_case st51 c
method_case_48_52 st51 c = method_case st52 c
method_case_48_52 st52 c = if c == 32 then tr17 else st st1
method_case_48_52 _ c = st st1

-- `switch (cs)`. The error state has no `case`: control falls out of the switch to `_out1`.
unfoldable pub dispatch : State → ℕ → Target
unfolding line_case version_case header_case uri_case path_case query_case method_case_34_41
    method_case_42_47 method_case_48_52
dispatch st0 c = line_case st0 c
dispatch st1 c = st st1
dispatch st2 c = line_case st2 c
dispatch st3 c = line_case st3 c
dispatch st4 c = line_case st4 c
dispatch st5 c = line_case st5 c
dispatch st6 c = version_case st6 c
dispatch st7 c = version_case st7 c
dispatch st8 c = version_case st8 c
dispatch st9 c = version_case st9 c
dispatch st10 c = version_case st10 c
dispatch st11 c = version_case st11 c
dispatch st12 c = version_case st12 c
dispatch st13 c = version_case st13 c
dispatch st14 c = header_case st14 c
dispatch st15 c = header_case st15 c
dispatch st16 c = header_case st16 c
dispatch st17 c = header_case st17 c
dispatch st18 c = header_case st18 c
dispatch st19 c = header_case st19 c
dispatch st20 c = uri_case st20 c
dispatch st21 c = uri_case st21 c
dispatch st22 c = uri_case st22 c
dispatch st23 c = uri_case st23 c
dispatch st24 c = path_case st24 c
dispatch st25 c = path_case st25 c
dispatch st26 c = path_case st26 c
dispatch st27 c = path_case st27 c
dispatch st28 c = path_case st28 c
dispatch st29 c = path_case st29 c
dispatch st30 c = query_case st30 c
dispatch st31 c = query_case st31 c
dispatch st32 c = query_case st32 c
dispatch st33 c = query_case st33 c
dispatch st34 c = method_case_34_41 st34 c
dispatch st35 c = method_case_34_41 st35 c
dispatch st36 c = method_case_34_41 st36 c
dispatch st37 c = method_case_34_41 st37 c
dispatch st38 c = method_case_34_41 st38 c
dispatch st39 c = method_case_34_41 st39 c
dispatch st40 c = method_case_34_41 st40 c
dispatch st41 c = method_case_34_41 st41 c
dispatch st42 c = method_case_42_47 st42 c
dispatch st43 c = method_case_42_47 st43 c
dispatch st44 c = method_case_42_47 st44 c
dispatch st45 c = method_case_42_47 st45 c
dispatch st46 c = method_case_42_47 st46 c
dispatch st47 c = method_case_42_47 st47 c
dispatch st48 c = method_case_48_52 st48 c
dispatch st49 c = method_case_48_52 st49 c
dispatch st50 c = method_case_48_52 st50 c
dispatch st51 c = method_case_48_52 st51 c
dispatch st52 c = method_case_48_52 st52 c
dispatch st53 c = header_case st53 c
