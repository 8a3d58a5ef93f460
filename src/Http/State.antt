-- ===== src/Http/State.antt =====
-- The states and the transitions of http_parser_execute, under the names of http11_parser.c.

-- `cs`: the labels `case 0`, `case 2`, .. `case 53`, and the error state 1.
pub data State : Type 0 where
  st0 st1 st2 st3 st4 st5 st6 st7 st8 st9 st10 st11 st12 st13 : State
  st14 st15 st16 st17 st18 st19 st20 st21 st22 st23 st24 st25 st26 : State
  st27 st28 st29 st30 st31 st32 st33 st34 st35 st36 st37 st38 st39 : State
  st40 st41 st42 st43 st44 st45 st46 st47 st48 st49 st50 st51 st52 st53 : State

-- What a `case` jumps to: a state with no action, or a `tr` label with its actions.
pub data Target : Type 0 where
  st : State → Target
  tr3 tr10 tr11 tr12 tr13 tr14 tr16 tr17 tr19 tr21 tr22 tr25 tr28 : Target
  tr31 tr33 tr34 tr36 tr37 tr38 tr39 tr40 tr41 : Target
