-- ===== src/Http/Execute.antt =====
-- http_parser_execute (dll_src/httpp/src/http11_parser.c): the actions behind the labels, the loop
-- over the buffer, and the assertions around it.
use caffeine_hx.Common.{
  ℕ, zero, suc, ◌+◌, ◌-◌, Bool, ◌&&◌, Option, none, some, get_elem?, leb, ltb, ◌==◌, if◌then◌else◌,
}
use caffeine_hx.Http.Dispatch.{dispatch}
use caffeine_hx.Http.Parser.{Parser, Env, Callbacks, sub_size, add_size, call, call_field}
use caffeine_hx.Http.State.{
  State, st1, st2, st3, st4, st5, st6, st14, st17, st18, st19, st20, st21, st24, st27, st30, st31,
  st32, st53, Target, st, tr3, tr10, tr11, tr12, tr13, tr14, tr16, tr17, tr19, tr21, tr22, tr25,
  tr28, tr31, tr33, tr34, tr36, tr37, tr38, tr39, tr40, tr41,
}

-- The parser and what its callbacks act on.
pub record Machine (W : Type 0) : Type 0 where
  pub parser : Parser
  pub env : Env W

-- Leave the loop with `p` where it is, or go on with `++p`.
pub data Jump (W : Type 0) : Type 0 where
  halt : State → Machine W → Jump W
  next : State → Machine W → Jump W

-- A call returns, stops in an assertion, or reads past the buffer (no behaviour in C).
pub data Outcome (A : Type 0) : Type 0 where
  returned : A → Outcome A
  assert_failed : Outcome A
  out_of_bounds : Outcome A

module _ {W : Type 0} where
  -- `MARK(mark, p)`, `MARK(field_start, p)`, `MARK(query_start, p)` and
  -- `field_len = LEN(field_start, p)`
  abbrev pub set_mark : ℕ → Machine W → Machine W
  set_mark p m = record m { parser = record m.parser { mark = p } }

  abbrev pub set_field_start : ℕ → Machine W → Machine W
  set_field_start p m = record m { parser = record m.parser { field_start = p } }

  abbrev pub set_query_start : ℕ → Machine W → Machine W
  set_query_start p m = record m { parser = record m.parser { query_start = p } }

  abbrev pub set_field_len : ℕ → Machine W → Machine W
  set_field_len p m = record m {
    parser = record m.parser { field_len = sub_size p m.parser.field_start };
  }

  -- `PTR_TO(mark), LEN(mark, p)` and `PTR_TO(query_start), LEN(query_start, p)`
  abbrev pub call_from : Option (ℕ → ℕ → Env W → Env W) → ℕ → ℕ → Machine W → Machine W
  call_from f at p m = record m { env = call f at (sub_size p at) m.env }

module _ {W : Type 0} (cb : Callbacks W) where
  unfoldable pub request_method : ℕ → Machine W → Machine W
  request_method p m = call_from cb.request_method m.parser.mark p m

  unfoldable pub request_uri : ℕ → Machine W → Machine W
  request_uri p m = call_from cb.request_uri m.parser.mark p m

  unfoldable pub request_path : ℕ → Machine W → Machine W
  request_path p m = call_from cb.request_path m.parser.mark p m

  unfoldable pub query_string : ℕ → Machine W → Machine W
  query_string p m = call_from cb.query_string m.parser.query_start p m

  unfoldable pub http_version : ℕ → Machine W → Machine W
  http_version p m = call_from cb.http_version m.parser.mark p m

  unfoldable pub http_field : ℕ → Machine W → Machine W
  http_field p m =
      let r = m.parser in
      record m {
        env = call_field cb.http_field r.field_start r.field_len r.mark (sub_size p r.mark) m.env;
      }

  -- `body_start = p - buffer + 1` and `header_done(p + 1, pe - p - 1)`
  unfoldable pub header_done : ℕ → ℕ → Machine W → Machine W
  header_done pe p m = record m {
    parser = record m.parser { body_start = p + 1 };
    env = call cb.header_done (p + 1) (pe - p - 1) m.env;
  }

  -- The blocks behind the labels, in the order of the file.
  unfoldable pub perform : ℕ → Target → ℕ → Machine W → Jump W
  unfolding request_method request_uri request_path query_string http_version http_field header_done
  perform pe (st st1) p m = halt st1 m
  perform pe tr14 p m = next st2 (set_mark p m)
  perform pe tr17 p m = next st3 (request_method p m)
  perform pe tr10 p m = next st4 (set_mark p m)
  perform pe tr19 p m = next st5 (request_uri p m)
  perform pe tr28 p m = next st5 (request_uri p (query_string p m))
  perform pe tr31 p m = next st5 (request_uri p (request_path p m))
  perform pe tr40 p m = next st5 (request_uri p (query_string p (set_query_start p m)))
  perform pe tr3 p m = next st6 (set_mark p m)
  perform pe tr22 p m = next st14 (http_version p m)
  perform pe tr36 p m = next st14 (http_field p m)
  perform pe tr25 p m = halt st53 (header_done pe p m)
  perform pe tr21 p m = next st17 (set_field_start p m)
  perform pe tr16 p m = next st18 (set_field_len p m)
  perform pe tr38 p m = next st18 (set_mark p m)
  perform pe tr37 p m = next st19 (set_mark p m)
  perform pe tr11 p m = next st20 (set_mark p m)
  perform pe tr13 p m = next st21 (set_mark p m)
  perform pe tr12 p m = next st24 (set_mark p m)
  perform pe tr33 p m = next st27 (request_path p m)
  perform pe tr34 p m = next st30 (request_path p m)
  perform pe tr39 p m = next st31 (set_query_start p m)
  perform pe tr41 p m = next st32 (set_query_start p m)
  perform pe (st s) p m = next s m

  -- The loop, on the bytes left: `pe` is `p` plus the rounds. It gives `cs`, `p` and the machine.
  unfoldable pub loop : ℕ → ℕ → ℕ → State → Machine W → Outcome (State × ℕ × Machine W)
  loop pe zero p cs m = returned (cs, p, m)
  loop pe (suc n) p cs m = elim (get_elem? m.env.buffer p) [
    | none ↦ out_of_bounds
    | some c ↦ elim (perform pe (dispatch cs c) p m) [
      | halt s m' ↦ returned (s, p, m')
      | next s m' ↦ loop pe n (p + 1) s m'
    ]
  ]

  -- The assertions behind the loop.
  unfoldable pub within_buffer : ℕ → ℕ → Parser → Bool
  within_buffer p len r =
      leb p len
      && leb r.nread len
      && leb r.body_start len
      && ltb r.mark len
      && leb r.field_len len
      && ltb r.field_start len

  -- What follows the loop: `cs` and `nread` are stored, checked, and `nread` is returned.
  unfoldable pub conclude : ℕ → ℕ → State → ℕ → Machine W → Outcome (ℕ × Machine W)
  unfolding within_buffer
  conclude len off cs p m =
      let r = record m.parser { cs = cs; nread = add_size m.parser.nread (p - off) } in
      if within_buffer p len r
      then (let r' = if ltb 0 r.body_start then record r { nread = add_size r.nread 1 } else r in
          returned (r'.nread, record m { parser = r' }))
      else assert_failed

  unfoldable pub conclude_loop : ℕ → ℕ → Outcome (State × ℕ × Machine W) → Outcome (ℕ × Machine W)
  unfolding conclude
  conclude_loop len off (returned (cs, p, m)) = conclude len off cs p m
  conclude_loop len off assert_failed = assert_failed
  conclude_loop len off out_of_bounds = out_of_bounds

  -- The assertions before the loop, the loop and its end. The third assertion of the code,
  -- `pe - p == len - off`, says no more than the first.
  unfoldable pub http_parser_execute : ℕ → ℕ → Machine W → Outcome (ℕ × Machine W)
  unfolding loop conclude_loop
  http_parser_execute len off m =
      if leb off len
      then elim (get_elem? m.env.buffer len) [
        | none ↦ out_of_bounds
        | some c ↦
            if c == 0
            then conclude_loop len off (loop len (len - off) off m.parser.cs m)
            else assert_failed
      ]
      else assert_failed
