-- ===== src/Openssl/Des/Tests.antt =====
-- Runs of dll_src/openssl/src/des_lua_neko.cpp with a cipher that adds.
use caffeine_hx.Common.{
  ℕ, ◌+◌, ◌-◌, ◌≡◌, refl, ap, ◌∙◌, true, List, [], ◌∷◌, ◌++◌, Option, none, some, length, arith,
  if◌then◌else◌,
}
use caffeine_hx.Common.Slots.{slot}
use caffeine_hx.Openssl.Des.{
  Des, string, key, result, des_destroy_key, des_gc_key, des_create_key, des_encrypt_block,
  des_decrypt_block, IsCipher, des_destroy_key-decrypt,
}

abbrev added : ℕ → List ℕ → List ℕ
added s [] = []
added s (b ∷ bs) = (b + s) ∷ added s bs

abbrev subtracted : ℕ → List ℕ → List ℕ
subtracted s [] = []
subtracted s (b ∷ bs) = (b - s) ∷ subtracted s bs

abbrev first_of : List ℕ → ℕ
first_of [] = 0
first_of (b ∷ bs) = b

-- The schedule is the first byte.
abbrev adding : Des
adding = record {
  Schedule = ℕ;
  zeroed = 0;
  set_key_unchecked = first_of;
  ecb_encrypt = λ encrypt s b. if encrypt then added s b else subtracted s b;
  ecb3_encrypt =
      λ encrypt s t u b. if encrypt then added (s + t + u) b else subtracted (s + t + u) b;
}

subtracted-added : (s : ℕ) (bs : List ℕ) → subtracted s (added s bs) ≡ bs
subtracted-added s [] = refl
subtracted-added s (b ∷ bs) =
    let back : b + s - s ≡ b = omega arith in
    ap (λ b. b ∷ subtracted s (added s bs)) back ∙ ap (λ t. b ∷ t) (subtracted-added s bs)

length-added : (s : ℕ) (bs : List ℕ) → length (added s bs) ≡ length bs
length-added s [] = refl
length-added s (b ∷ bs) = omega (arith, length-added s bs)

adding-IsCipher : IsCipher adding
adding-IsCipher = record {
  undoes = λ s b eight. subtracted-added s b;
  block_size = λ s b eight. length-added s b ∙ eight;
}

abbrev eight_bytes : List ℕ
eight_bytes = 1 ∷ 2 ∷ 3 ∷ 4 ∷ 5 ∷ 6 ∷ 7 ∷ 8 ∷ []

abbrev two_keys : List (Option ℕ)
two_keys = some 5 ∷ some 9 ∷ []

key_zero : slot two_keys 0 ≡ some 5
unfolding slot
key_zero = refl

key_one : slot two_keys 1 ≡ some 9
unfolding slot
key_one = refl

des_destroy_key-decrypt_example :
    (ks1 : List (Option ℕ)) × ((ks2 : List (Option ℕ)) × ((c : List ℕ) × ((des_destroy_key adding
              (key 0)
              two_keys
            ≡ some ks1)
          × (des_destroy_key adding (key 1) ks1 ≡ some ks2)
          × (des_encrypt_block adding true (key 0) (string eight_bytes) ks2 ≡ result (string c) ks2)
          × (des_decrypt_block adding true (key 1) (string c) ks2
              ≡ result (string eight_bytes) ks2))))
des_destroy_key-decrypt_example =
    des_destroy_key-decrypt adding adding-IsCipher 0 1 5 9 eight_bytes two_keys key_zero key_one
      (λ p. omega (arith, p)) refl

new_key :
    (des_create_key adding true (string (7 ∷ 0 ∷ 0 ∷ 0 ∷ 0 ∷ 0 ∷ 0 ∷ 0 ∷ [])) two_keys
      ≡ result (key 2) (two_keys ++ some 7 ∷ []))
    × (des_gc_key adding (key 1) two_keys ≡ some (some 5 ∷ none ∷ []))
unfolding des_create_key des_gc_key slot
new_key = (refl, refl)
