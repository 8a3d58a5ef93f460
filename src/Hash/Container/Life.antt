-- ===== src/Hash/Container/Life.antt =====
-- The life of a hash object of sha1_lua_neko.c (dll_src/hash/src): from sha_init over calls of
-- sha_update to sha_final.
use caffeine_hx.Common.{
  ℕ, ◌≡◌, refl, ◌∙◌, subst, Bool, true, List, [], ◌∷◌, ◌++◌, append_assoc, append-nil, length,
  Option, some,
}
use caffeine_hx.Common.Int.{to_uint32, ℤ}
use caffeine_hx.Hash.Container.{
  Answer, result, then_, Arg, int, string, Sha2, ShaContainer, container, is_size, sha_init,
  sha_update, sha_final,
}
use caffeine_hx.Hash.Sha1.Digest.{joined, IsShort}
use caffeine_hx.Hash.Container.Session.{
  Laws, Holds, digest_by, sha_init-Holds, sha_update-Holds, sha_final-Holds,
}

module _ (machine_le : Bool) (s : Sha2) where
  -- sha_update for each of the parts.
  unfoldable pub sha_updates :
      ShaContainer machine_le s → List (List ℕ) → Answer (ShaContainer machine_le s)
  sha_updates sc [] = result sc
  sha_updates sc (part ∷ parts) =
      then_ (sha_update machine_le s (container (some sc)) (string part))
        (λ sc'. sha_updates sc' parts)

  -- sha_init, sha_update for each of the parts, sha_final: the digest.
  unfoldable pub session : Arg → (ℕ → Option (List ℕ)) → List (List ℕ) → Answer (List ℕ)
  session size malloc parts = then_ (sha_init machine_le s size true malloc) (λ sc.
      then_ (sha_updates sc parts)
        (λ sc'. then_ (sha_final machine_le s (container (some sc'))) (λ r. result r.0)))

  sha_updates-Holds :
      (laws : Laws s) (m : List ℕ) (parts : List (List ℕ)) (sc : ShaContainer machine_le s)
      → Holds machine_le s laws m sc
      → IsShort parts
      → (sc' : ShaContainer machine_le s) × (sha_updates sc parts ≡ result sc')
        × Holds machine_le s laws (m ++ joined parts) sc'
        × (sc'.tag ≡ sc.tag)
  unfolding sha_updates joined IsShort
  sha_updates-Holds laws m [] sc h l = (sc, refl, rw (append-nil m) h, refl)
  sha_updates-Holds laws m (part ∷ parts) sc h l =
      let (sc1, e, f, t) = sha_update-Holds machine_le s laws m part sc h l.0 in
      let (sc2, e', f', t') = sha_updates-Holds laws (m ++ part) parts sc1 f l.1 in
      (
        sc2,
        rw e e',
        subst (λ x. Holds machine_le s laws x sc2) (append_assoc m part (joined parts)) f',
        t' ∙ t,
      )

  -- A hash object of any of the five sizes, where memory is had: sha_init, sha_update for each of the
  -- parts and sha_final succeed and give the algorithm's digest of the concatenation. The parts are
  -- shorter than 2 ^ 32 - 63 bytes; SHA-1 is sha1.c, the others keep the promises of `Laws`.
  pub session-digest :
      (laws : Laws s) (i : ℤ) (malloc : ℕ → Option (List ℕ)) (parts : List (List ℕ))
      → is_size (to_uint32 i) ≡ true
      → ((n : ℕ) → (raw : List ℕ) × (malloc n ≡ some raw) × (length raw ≡ n))
      → IsShort parts
      → session (int i) malloc parts
        ≡ result (digest_by machine_le s laws (to_uint32 i) (joined parts))
  unfolding session
  session-digest laws i malloc parts h m l =
      let (sc, e, f, t) = sha_init-Holds machine_le s laws i malloc h m in
      let (sc', e', f', t') = sha_updates-Holds laws [] parts sc f l in
      let (last, e'') = sha_final-Holds machine_le s laws (joined parts) sc' f' in
      rw (e, e', e'', t', t) refl
