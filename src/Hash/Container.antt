-- ===== src/Hash/Container.antt =====
-- The hash objects of the hash module (dll_src/hash/src/sha1_lua_neko.c): sha_init, sha_update,
-- sha_final, sha_string and destroy_container on a sha_container.
use caffeine_hx.Common.{
  ℕ, zero, suc, ◌-◌, ◌^◌, Bool, true, false, ◌||◌, List, [], ◌∷◌, Option, none, some, take, drop,
  length, ◌==◌, if◌then◌else◌,
}
use caffeine_hx.Common.Int.{to_uint32, ℤ, pos, negsuc}
use caffeine_hx.Hash.Algorithm.{Algorithm, sha1_algorithm}
pub mod Session
pub mod Life

-- What a primitive gives: a value; NULL for an argument of the wrong type; an exception; or nothing
-- that C defines, where freed memory or another member of the union is read.
pub data Message : Type 0 where
  null_handle : Message
  invalid_size : ℕ → Message
  no_memory : Message

pub data Answer (A : Type 0) : Type 0 where
  result : A → Answer A
  type_error : Answer A
  thrown : Message → Answer A
  undefined : Answer A

abbrev pub then_ : {A B : Type 0} → Answer A → (A → Answer B) → Answer B
then_ (result a) k = k a
then_ type_error k = type_error
then_ (thrown m) k = thrown m
then_ undefined k = undefined

-- The Neko values that the primitives tell apart.
pub data Arg : Type 0 where
  int : ℤ → Arg
  string : List ℕ → Arg
  other_value : Arg

-- The algorithms of sha2.c.
pub record Sha2 : Type 1 where
  pub sha224 : Algorithm
  pub sha256 : Algorithm
  pub sha384 : Algorithm
  pub sha512 : Algorithm

-- The union `con` holds one context.
pub data Con (machine_le : Bool) (s : Sha2) : Type 0 where
  text1 : (sha1_algorithm machine_le).Ctx → Con machine_le s
  text224 : s.sha224.Ctx → Con machine_le s
  text256 : s.sha256.Ctx → Con machine_le s
  text384 : s.sha384.Ctx → Con machine_le s
  text512 : s.sha512.Ctx → Con machine_le s

pub record ShaContainer (machine_le : Bool) (s : Sha2) : Type 0 where
  pub tag : ℕ
  pub con : Con machine_le s

-- A Neko value where a `k_shacontainer` is expected: of another kind, which a destroyed one is too,
-- or an abstract with its pointer.
pub data Handle (machine_le : Bool) (s : Sha2) : Type 0 where
  other_kind : Handle machine_le s
  container : Option (ShaContainer machine_le s) → Handle machine_le s

abbrev pub is_size : ℕ → Bool
is_size t = t == 1 || t == 224 || t == 256 || t == 384 || t == 512

-- The branch of a `switch(sc->type)` that is not the one of the context in the union.
abbrev pub mismatch : {A : Type 0} → ℕ → Answer A
mismatch t = if is_size t then undefined else thrown (invalid_size t)

-- `malloc` of a context gives NULL or the bytes that the block holds; `_init` runs on those.
abbrev pub init_in : {C : Type 0} → Option (List ℕ) → (a : Algorithm) → (a.Ctx → C) → Answer C
init_in none a con = thrown no_memory
init_in (some raw) a con = result (con (a.init raw))

module _ (machine_le : Bool) (s : Sha2) where
  -- The context that a size's `malloc` and `_init` give.
  unfoldable pub init_con : ℕ → (ℕ → Option (List ℕ)) → Answer (Con machine_le s)
  init_con t malloc =
      if t == 1
      then init_in (malloc (sha1_algorithm machine_le).size) (sha1_algorithm machine_le) text1
      else if t == 224
      then init_in (malloc s.sha224.size) s.sha224 text224
      else if t == 256
      then init_in (malloc s.sha256.size) s.sha256 text256
      else if t == 384
      then init_in (malloc s.sha384.size) s.sha384 text384
      else if t == 512
      then init_in (malloc s.sha512.size) s.sha512 text512
      else undefined

  -- `sha_init(Size)`; `enough` says that the container's own malloc succeeds. Of an unknown size the
  -- default branch reads `sc->type` behind `free(sc)`.
  unfoldable pub sha_init : Arg → Bool → (ℕ → Option (List ℕ)) → Answer (ShaContainer machine_le s)
  unfolding init_con
  sha_init (int i) true malloc =
      then_ (init_con (to_uint32 i) malloc)
        (λ con. result (record { tag = to_uint32 i; con = con }))
  sha_init (int i) false malloc = thrown no_memory
  sha_init _ enough malloc = type_error

  -- `switch(sc->type)` of sha_update
  unfoldable pub update_con : ℕ → Con machine_le s → List ℕ → Answer (Con machine_le s)
  update_con t (text1 c) bytes =
      if t == 1 then result (text1 ((sha1_algorithm machine_le).update c bytes)) else mismatch t
  update_con t (text224 c) bytes =
      if t == 224 then result (text224 (s.sha224.update c bytes)) else mismatch t
  update_con t (text256 c) bytes =
      if t == 256 then result (text256 (s.sha256.update c bytes)) else mismatch t
  update_con t (text384 c) bytes =
      if t == 384 then result (text384 (s.sha384.update c bytes)) else mismatch t
  update_con t (text512 c) bytes =
      if t == 512 then result (text512 (s.sha512.update c bytes)) else mismatch t

  -- `sha_update(SC, Msg)`: the container behind it; the primitive returns true.
  unfoldable pub sha_update : Handle machine_le s → Arg → Answer (ShaContainer machine_le s)
  unfolding update_con
  sha_update (container (some sc)) (string bytes) =
      then_ (update_con sc.tag sc.con bytes) (λ con. result (record sc { con = con }))
  sha_update (container none) (string bytes) = thrown null_handle
  sha_update _ _ = type_error

  -- `switch(sc->type)` of sha_final: the digest and the context behind it
  unfoldable pub final_con : ℕ → Con machine_le s → Answer (List ℕ × Con machine_le s)
  final_con t (text1 c) =
      let (digest, c') = (sha1_algorithm machine_le).final c in
      if t == 1 then result (digest, text1 c') else mismatch t
  final_con t (text224 c) =
      let (digest, c') = s.sha224.final c in
      if t == 224 then result (digest, text224 c') else mismatch t
  final_con t (text256 c) =
      let (digest, c') = s.sha256.final c in
      if t == 256 then result (digest, text256 c') else mismatch t
  final_con t (text384 c) =
      let (digest, c') = s.sha384.final c in
      if t == 384 then result (digest, text384 c') else mismatch t
  final_con t (text512 c) =
      let (digest, c') = s.sha512.final c in
      if t == 512 then result (digest, text512 c') else mismatch t

  -- `sha_final(SC)`
  unfoldable pub sha_final : Handle machine_le s → Answer (List ℕ × ShaContainer machine_le s)
  unfolding final_con
  sha_final (container (some sc)) =
      then_ (final_con sc.tag sc.con) (λ r. result (r.0, record sc { con = r.1 }))
  sha_final (container none) = thrown null_handle
  sha_final other_kind = type_error

  -- `destroy_container(c)`, the finalizer: both blocks are freed and the value loses its kind. A
  -- container without a pointer is dereferenced.
  unfoldable pub destroy_container : Handle machine_le s → Answer (Handle machine_le s)
  destroy_container other_kind = result other_kind
  destroy_container (container (some sc)) = result other_kind
  destroy_container (container none) = undefined

  -- `sha_string(container, message, length)`: 16384 bytes at a time. Its switch has no default branch;
  -- the number of bytes is fuel enough.
  unfoldable pub sha_string :
      ℕ → ShaContainer machine_le s → List ℕ → Answer (ShaContainer machine_le s)
  unfolding update_con
  sha_string zero sc bytes = result sc
  sha_string (suc fuel) sc [] = result sc
  sha_string (suc fuel) sc (b ∷ bytes) =
      let chunk = take 16384 (b ∷ bytes) in
      let rest = drop 16384 (b ∷ bytes) in
      then_
        (if is_size sc.tag
          then then_ (update_con sc.tag sc.con chunk) (λ con. result (record sc { con = con }))
          else result sc)
        (λ sc'. sha_string fuel sc' rest)
