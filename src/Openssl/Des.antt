-- ===== src/Openssl/Des.antt =====
-- DES for scripts, of dll_src/openssl/src/des_lua_neko.cpp.
use caffeine_hx.Common.{
  ℕ, ◌<◌, ◌≤◌, ◌≡◌, ◌≢◌, refl, ap, sym, ◌∙◌, Bool, true, false, not, List, [], ◌∷◌, ◌++◌, Option,
  none, some, length, set, take, ltb, ◌==◌, if◌then◌else◌, arith,
}
use caffeine_hx.Common.Slots.{slot, slot-lt, slot-set_within, slot-set_other}
mod Tests

-- OpenSSL: a schedule of zero bytes, the schedule of eight bytes, and the block that a schedule or three
-- make of a block, for DES_ENCRYPT where it is true and DES_DECRYPT else.
pub record Des : Type 1 where
  pub Schedule : Type 0
  pub zeroed : Schedule
  pub set_key_unchecked : List ℕ → Schedule
  pub ecb_encrypt : Bool → Schedule → List ℕ → List ℕ
  pub ecb3_encrypt : Bool → Schedule → Schedule → Schedule → List ℕ → List ℕ

-- A key is a pointer to a schedule, by number.
pub data Value : Type 0 where
  string : List ℕ → Value
  key : ℕ → Value
  other_value : Value

pub data Message : Type 0 where
  key_material_length out_of_memory block_size_incorrect : Message

-- A primitive gives a value, an exception, or NULL; or a schedule is used that is freed.
pub data Answer (S : Type 0) : Type 0 where
  result : Value → S → Answer S
  thrown : Message → S → Answer S
  neko_error : S → Answer S
  undefined : Answer S

module _ (d : Des) where
  -- The schedules by number, `none` where freed
  abbrev pub Keys : Type 0
  Keys = List (Option d.Schedule)

  -- `memset` of the schedule; the value keeps its kind. `none` where the schedule is freed.
  abbrev pub erased : ℕ → Keys → Option d.Schedule → Option Keys
  erased i ks none = none
  erased i ks (some s) = some (set ks i (some d.zeroed))

  unfoldable pub des_destroy_key : Value → Keys → Option Keys
  des_destroy_key (key i) ks = erased i ks (slot ks i)
  des_destroy_key _ ks = some ks

  abbrev pub freed_key : ℕ → Option Keys → Option Keys
  freed_key i none = none
  freed_key i (some ks) = some (set ks i none)

  -- The finalizer
  unfoldable pub des_gc_key : Value → Keys → Option Keys
  unfolding des_destroy_key
  des_gc_key (key i) ks = freed_key i (des_destroy_key (key i) ks)
  des_gc_key _ ks = some ks

  -- `malloc` says whether the block is had.
  unfoldable pub des_create_key : Bool → Value → Keys → Answer Keys
  des_create_key malloc (string s) ks =
      if ltb (length s) 8
      then thrown key_material_length ks
      else if malloc
      then result (key (length ks)) (ks ++ some (d.set_key_unchecked (take 8 s)) ∷ [])
      else thrown out_of_memory ks
  des_create_key malloc _ ks = neko_error ks

  abbrev pub with_schedule : (d.Schedule → Answer Keys) → Option d.Schedule → Answer Keys
  with_schedule use_schedule none = undefined
  with_schedule use_schedule (some s) = use_schedule s

  -- A block of eight bytes, behind the checks of the keys
  abbrev pub on_block : Bool → (List ℕ → Answer Keys) → Value → Keys → Answer Keys
  on_block malloc use_block (string b) ks =
      if not (length b == 8)
      then thrown block_size_incorrect ks
      else if malloc
      then use_block b
      else thrown out_of_memory ks
  on_block malloc use_block _ ks = neko_error ks

  abbrev pub block_with : Bool → Bool → Value → Value → Keys → Answer Keys
  block_with encrypt malloc (key i) input ks =
      on_block malloc
        (λ b. with_schedule (λ s. result (string (d.ecb_encrypt encrypt s b)) ks) (slot ks i)) input
        ks
  block_with encrypt malloc _ input ks = neko_error ks

  unfoldable pub des_encrypt_block : Bool → Value → Value → Keys → Answer Keys
  des_encrypt_block malloc k input ks = block_with true malloc k input ks

  unfoldable pub des_decrypt_block : Bool → Value → Value → Keys → Answer Keys
  des_decrypt_block malloc k input ks = block_with false malloc k input ks

  abbrev pub block_with_three : Bool → Bool → Value → Value → Value → Value → Keys → Answer Keys
  block_with_three encrypt malloc (key i) (key j) (key k) input ks =
      on_block malloc
        (λ b.
          with_schedule
            (λ s.
              with_schedule
                (λ t.
                  with_schedule (λ u. result (string (d.ecb3_encrypt encrypt s t u b)) ks)
                    (slot ks k))
                (slot ks j))
            (slot ks i))
        input ks
  block_with_three encrypt malloc _ _ _ input ks = neko_error ks

  unfoldable pub des3_encrypt_block : Bool → Value → Value → Value → Value → Keys → Answer Keys
  des3_encrypt_block malloc k1 k2 k3 input ks = block_with_three true malloc k1 k2 k3 input ks

  unfoldable pub des3_decrypt_block : Bool → Value → Value → Value → Value → Keys → Answer Keys
  des3_decrypt_block malloc k1 k2 k3 input ks = block_with_three false malloc k1 k2 k3 input ks

  -- Decryption with a schedule undoes encryption with it, which gives eight bytes.
  pub record IsCipher : Type 0 where
    pub undoes :
        (s : d.Schedule) (b : List ℕ)
        → length b ≡ 8
        → d.ecb_encrypt false s (d.ecb_encrypt true s b) ≡ b
    pub block_size :
        (s : d.Schedule) (b : List ℕ) → length b ≡ 8 → length (d.ecb_encrypt true s b) ≡ 8

  -- Where memory is had, two different keys that scripts destroyed are one key: what the one encrypts the
  -- other decrypts, whatever their material was.
  pub des_destroy_key-decrypt :
      IsCipher
      → (i j : ℕ) (s t : d.Schedule) (b : List ℕ) (ks : Keys) → slot ks i ≡ some s
      → slot ks j ≡ some t
      → i ≢ j
      → length b ≡ 8
      → (ks1 : Keys) × ((ks2 : Keys) × ((c : List ℕ) × ((des_destroy_key (key i) ks ≡ some ks1)
              × (des_destroy_key (key j) ks1 ≡ some ks2)
              × (des_encrypt_block true (key i) (string b) ks2 ≡ result (string c) ks2)
              × (des_decrypt_block true (key j) (string c) ks2 ≡ result (string b) ks2))))
  unfolding des_destroy_key des_encrypt_block des_decrypt_block
  des_destroy_key-decrypt cipher i j s t b ks at_i at_j ne eight =
      let z : Option d.Schedule = some d.zeroed in
      let ks1 : Keys = set ks i z in
      let ks2 : Keys = set ks1 j z in
      let j1 : slot ks1 j ≡ some t = slot-set_other ks i j z ne ∙ at_j in
      let i1 : slot ks1 i ≡ z = slot-set_within ks i z (slot-lt ks i at_i) in
      let i2 : slot ks2 i ≡ z = slot-set_other ks1 j i z (λ p. ne (sym p)) ∙ i1 in
      let j2 : slot ks2 j ≡ z = slot-set_within ks1 j z (slot-lt ks1 j j1) in
      let c : List ℕ = d.ecb_encrypt true d.zeroed b in
      let eight' : length c ≡ 8 = cipher.block_size d.zeroed b eight in
      (
        ks1,
        (
          ks2,
          (
            c,
            (
              rw at_i refl,
              rw j1 refl,
              rw (eight, i2) refl,
              rw (eight', j2, cipher.undoes d.zeroed b eight) refl,
            ),
          ),
        ),
      )
