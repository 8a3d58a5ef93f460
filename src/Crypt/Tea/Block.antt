-- ===== src/Crypt/Tea/Block.antt =====
-- The Neko binding of xxtea (dll_src/crypt/src/tea.cpp): keys, and blocks of words.
use caffeine_hx.Common.{
  ℕ, ◌-◌, Bool, List, [], ◌∷◌, ◌++◌, Option, none, some, length, ltb, not, ◌==◌, if◌then◌else◌, ◌⊎◌,
  inl, inr,
}
use caffeine_hx.Common.Int.{ℤ, to_uint32}
use caffeine_hx.Common.Words.{word_mod, native_bytes}
use caffeine_hx.Crypt.Tea.{xxtea}

-- What xxtea_make_array refuses with, and the message that is thrown for it.
pub data Code : Type 0 where
  not_array count_mismatch not_int32 no_memory data_len : Code

-- A primitive gives a value, NULL for an argument of the wrong type, an exception; it does what C does
-- not define; or its loop has not ended on its fuel.
pub data Answer (A : Type 0) : Type 0 where
  result : A → Answer A
  neko_error : Answer A
  thrown : Code → Answer A
  undefined : Answer A
  out_of_fuel : Answer A

-- An element of a Neko array: an int32 as its word, or another value.
pub data Item : Type 0 where
  int32 : ℕ → Item
  other_item : Item

pub data Arg : Type 0 where
  int : ℤ → Arg
  array : List Item → Arg
  key : List ℕ → Arg
  other_value : Arg

-- The loop over the elements.
unfoldable pub words_in : List Item → Option (List ℕ)
words_in [] = some []
words_in (other_item ∷ items) = none
words_in (int32 w ∷ items) = elim (words_in items) [ none ↦ none | some v ↦ some (w ∷ v) ]

-- `xxtea_make_array(Words, Count, &v)`; `enough` says that malloc succeeds.
unfoldable pub xxtea_make_array : Arg → ℤ → Bool → Code ⊎ List ℕ
unfolding words_in
xxtea_make_array (array items) count enough =
    if not (length items == to_uint32 count)
    then inl count_mismatch
    else if ltb (length items) 2
    then inl data_len
    else if not enough
    then inl no_memory
    else elim (words_in items) [ none ↦ inl not_int32 | some v ↦ inr v ]
xxtea_make_array _ count enough = inl not_array

-- `xxtea_create_key(Int32Array)`. The block of malloc is not tested; four words are written to it.
unfoldable pub xxtea_create_key : Arg → Bool → Answer (List ℕ)
unfolding words_in
xxtea_create_key (array items) enough =
    if not (length items == 4)
    then thrown data_len
    else if enough
    then elim (words_in items) [ none ↦ thrown not_int32 | some k ↦ result k ]
    else undefined
xxtea_create_key _ enough = thrown not_array

-- `destroy_key`: the value loses its kind.
unfoldable pub destroy_key : Arg → Arg
destroy_key (key k) = other_value
destroy_key a = a

module _ (machine_le : Bool) where
  -- `copy_string((const char *)v, n * 4)`
  unfoldable pub string_of : List ℕ → List ℕ
  string_of [] = []
  string_of (w ∷ v) = native_bytes machine_le w ++ string_of v

  abbrev pub string_or_fuel : Option (List ℕ × ℕ) → Answer (List ℕ)
  string_or_fuel none = out_of_fuel
  string_or_fuel (some (v, r)) = result (string_of v)

  -- What follows xxtea_make_array; the result of xxtea is not looked at.
  abbrev pub run_block : List ℕ → ℕ → Code ⊎ List ℕ → Answer (List ℕ)
  run_block k n (inl code) = thrown code
  run_block k n (inr v) = string_or_fuel (xxtea k v n)

  -- `xxtea_encrypt_block(Words, Count, Key)`. The size of `Words` is read before it is known to be an
  -- array.
  unfoldable pub xxtea_encrypt_block : Arg → Arg → Arg → Bool → Answer (List ℕ)
  xxtea_encrypt_block (array items) (int count) (key k) enough =
      if length items == 0
      then result []
      else run_block k (length items) (xxtea_make_array (array items) count enough)
  xxtea_encrypt_block words (int count) (key k) enough = undefined
  xxtea_encrypt_block _ _ _ enough = neko_error

  -- `xxtea_decrypt_block(Words, Count, Key)`, with the count negated.
  unfoldable pub xxtea_decrypt_block : Arg → Arg → Arg → Bool → Answer (List ℕ)
  xxtea_decrypt_block (array items) (int count) (key k) enough =
      if length items == 0
      then result []
      else run_block k (word_mod - length items) (xxtea_make_array (array items) count enough)
  xxtea_decrypt_block words (int count) (key k) enough = undefined
  xxtea_decrypt_block _ _ _ enough = neko_error
