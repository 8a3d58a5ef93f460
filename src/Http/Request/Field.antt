-- ===== src/Http/Request/Field.antt =====
-- The header callback `http_field` (http11neko.c) on a header line of the buffer.
use caffeine_hx.Common.{
  ℕ, ◌+◌, ◌≡◌, ◌∙◌, ◌∷◌, ◌++◌, length, length-append, set, set-length_append, drop,
  drop-length_append, append_assoc, if◌then◌else◌, arith,
}
use caffeine_hx.Http.Neko.{
  Bytes, Value, Script, string, int, header, until_nul, has_prefix, content_length, atoi, alloc_int,
  on_field,
}
use caffeine_hx.Http.Parser.{sub_size}
use caffeine_hx.Http.Request.Step.{with_field, sub_size-length, until_nul-append}

-- The value that the binding stores for a header: a number of 31 bits under `Content-Length`, else the text.
abbrev pub field_value : Bytes → Bytes → Value
field_value name text =
    if has_prefix content_length name then int (alloc_int (atoi text)) else string text

-- What stands before the text of a header: as it was read, and with the colon overwritten.
abbrev pub before : Bytes → Bytes → Bytes → Bytes
before pre name mid = (pre ++ name) ++ (b':' ∷ mid)

abbrev pub before' : Bytes → Bytes → Bytes → Bytes
before' pre name mid = (pre ++ name) ++ (0 ∷ mid)

module _ (pre name mid text : Bytes) (c : ℕ) (rest : Bytes) where
  abbrev old : Bytes
  old = before pre name mid

  abbrev new : Bytes
  new = before' pre name mid

  pub length-before : length (old ++ text) ≡ length (new ++ text)
  length-before = omega (
    arith,
    length-append old text,
    length-append new text,
    length-append (pre ++ name) (b':' ∷ mid),
    length-append (pre ++ name) (0 ∷ mid),
  )

  length-new : length old ≡ length new
  length-new =
      omega (arith, length-append (pre ++ name) (b':' ∷ mid), length-append (pre ++ name) (0 ∷ mid))

  first_write :
      set ((old ++ text) ++ (c ∷ rest)) (length pre + length name) 0 ≡ (new ++ text) ++ (c ∷ rest)
  first_write = simp append_assoc (
      rw (← append_assoc pre name (b':' ∷ (mid ++ (text ++ (c ∷ rest)))), ← length-append pre name)
        (set-length_append (pre ++ name) b':' 0 (mid ++ (text ++ (c ∷ rest)))
          ∙ append_assoc pre name (0 ∷ (mid ++ (text ++ (c ∷ rest))))))

  second_write :
      set
        ((new ++ text) ++ (c ∷ rest))
        (length old + sub_size (length (old ++ text)) (length old))
        0
      ≡ (new ++ text) ++ (0 ∷ rest)
  second_write =
      rw (sub_size-length old text, length-before) (set-length_append (new ++ text) c 0 rest)

  name_read : until_nul (drop (length pre) ((new ++ text) ++ (0 ∷ rest))) ≡ until_nul name
  name_read = simp append_assoc (
      rw (drop-length_append pre (name ++ (0 ∷ (mid ++ (text ++ (0 ∷ rest))))))
        (until_nul-append name (mid ++ (text ++ (0 ∷ rest)))))

  text_read : until_nul (drop (length old) ((new ++ text) ++ (0 ∷ rest))) ≡ until_nul text
  text_read =
      rw (length-new, append_assoc new text (0 ∷ rest), drop-length_append new (text ++ (0 ∷ rest)))
        (until_nul-append text rest)

  -- `http_field` on the line `name`, colon, `mid`, `text`, whose end `c` was read: the colon and the
  -- end become NUL, and the header of that name gets that value.
  pub on_field_lem :
      (w : Script)
      → on_field
          (length pre)
          (length name)
          (length old)
          (sub_size (length (old ++ text)) (length old))
          (record { buffer = (old ++ text) ++ (c ∷ rest); world = w })
        ≡ record {
          buffer = (new ++ text) ++ (0 ∷ rest);
          world =
              with_field
                (header (until_nul name))
                (field_value (until_nul name) (until_nul text))
                w;
        }
  unfolding on_field
  on_field_lem w = rw (first_write, second_write) (rw (name_read, text_read))
