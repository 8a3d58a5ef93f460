-- ===== src/Hash/Algorithm.antt =====
-- What sha_container of dll_src/hash/src/sha1_lua_neko.c asks of a hash algorithm: three functions on
-- a context, and what they promise. sha1.c fills it; the algorithms of sha2.c are parameters.
use caffeine_hx.Common.{
  ℕ, ◌+◌, ◌^◌, ◌≤◌, ◌≡◌, Bool, not, List, [], ◌++◌, length, take, drop, length-take, length-drop,
  arith,
}
use caffeine_hx.Hash.Sha1.Context.{Context, sha1_init, sha1_update, sha1_final, be_test}
use caffeine_hx.Hash.Sha1.Digest.{digest, sha1_final-digest}
use caffeine_hx.Hash.Sha1.Update.{Represents, sha1_update-Represents, initial-Represents}

-- `size` is the context's `sizeof`. `init` is given the bytes that malloc left there, and `final`
-- gives the digest and the context behind it.
pub record Algorithm : Type 1 where
  pub Ctx : Type 0
  pub size : ℕ
  pub init : List ℕ → Ctx
  pub update : Ctx → List ℕ → Ctx
  pub final : Ctx → List ℕ × Ctx

-- The promise: the digest of the bytes given to `update`, whose length is a `u_int32_t`.
pub record Law (a : Algorithm) : Type 1 where
  pub Stands : List ℕ → a.Ctx → Type 0
  pub digest_of : List ℕ → List ℕ
  pub init_lem : (raw : List ℕ) → length raw ≡ a.size → Stands [] (a.init raw)
  pub update_lem :
      (m bytes : List ℕ) (c : a.Ctx)
      → Stands m c
      → length bytes + 64 ≤ 2 ^ 32
      → Stands (m ++ bytes) (a.update c bytes)
  pub final_lem : (m : List ℕ) (c : a.Ctx) → Stands m c → (a.final c).0 ≡ digest_of m

-- The block of an `SHA1_CTX` stands behind five words of state and two of count.
abbrev pub held_block : List ℕ → List ℕ
held_block raw = take 64 (drop 28 raw)

abbrev pub sha1_algorithm : Bool → Algorithm
sha1_algorithm machine_le = record {
  Ctx = Context;
  size = 96;
  init = λ raw. sha1_init machine_le (held_block raw);
  update = sha1_update machine_le;
  final = sha1_final machine_le;
}

pub sha1_init_lem :
    (machine_le : Bool) (raw : List ℕ)
    → length raw ≡ 96
    → Represents machine_le (not (be_test machine_le)) [] (sha1_init machine_le (held_block raw))
unfolding sha1_init
sha1_init_lem machine_le raw h =
    initial-Represents machine_le (not (be_test machine_le)) (held_block raw)
      (omega (arith, length-take 64 (drop 28 raw), length-drop 28 raw))

-- sha1.c keeps the promise.
abbrev pub sha1_law : (machine_le : Bool) → Law (sha1_algorithm machine_le)
sha1_law machine_le = record {
  Stands = Represents machine_le (not (be_test machine_le));
  digest_of = digest machine_le (not (be_test machine_le));
  init_lem = sha1_init_lem machine_le;
  update_lem = sha1_update-Represents machine_le (not (be_test machine_le));
  final_lem = λ m c r. (sha1_final-digest machine_le (not (be_test machine_le)) m c r).0;
}
