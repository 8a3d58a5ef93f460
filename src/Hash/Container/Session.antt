-- ===== src/Hash/Container/Session.antt =====
-- A hash object of sha1_lua_neko.c (dll_src/hash/src) holds a message: sha_init, sha_update, sha_string
-- and sha_final, for each of the five algorithms.
use caffeine_hx.Common.{
  ℕ, zero, suc, ◌+◌, ◌^◌, ◌≤◌, ◌≡◌, refl, ap, ◌∙◌, subst, Bool, true, List, [], ◌∷◌, ◌++◌,
  append_assoc, append-nil, length, length-take, length-drop, take, drop, take-append-drop, Option,
  some, ◌==◌, ◌⊎◌, if◌then◌else◌, arith, inl, inr,
}
use caffeine_hx.Common.Int.{to_uint32, ℤ}
use caffeine_hx.Hash.Algorithm.{Law, sha1_algorithm, sha1_law}
use caffeine_hx.Hash.Container.{
  result, int, string, Sha2, Con, text1, text224, text256, text384, text512, ShaContainer,
  container, is_size, init_con, sha_init, update_con, sha_update, final_con, sha_final, sha_string,
}

-- The promises of the algorithms of sha2.c.
pub record Laws (s : Sha2) : Type 1 where
  pub law224 : Law s.sha224
  pub law256 : Law s.sha256
  pub law384 : Law s.sha384
  pub law512 : Law s.sha512

size_cases :
    (t : ℕ) → is_size t ≡ true → (t ≡ 1) ⊎ ((t ≡ 224) ⊎ ((t ≡ 256) ⊎ ((t ≡ 384) ⊎ (t ≡ 512))))
size_cases t h = ground arith

module _ (machine_le : Bool) (s : Sha2) (laws : Laws s) where
  -- The digest of the algorithm of a size.
  abbrev pub digest_by : ℕ → List ℕ → List ℕ
  digest_by t m =
      if t == 1
      then (sha1_law machine_le).digest_of m
      else if t == 224
      then laws.law224.digest_of m
      else if t == 256
      then laws.law256.digest_of m
      else if t == 384
      then laws.law384.digest_of m
      else laws.law512.digest_of m

  -- The context in the union is the one of the container's size, and stands for `m`.
  abbrev pub Fits : List ℕ → ℕ → Con machine_le s → Type 0
  Fits m t (text1 c) = (t ≡ 1) × (sha1_law machine_le).Stands m c
  Fits m t (text224 c) = (t ≡ 224) × laws.law224.Stands m c
  Fits m t (text256 c) = (t ≡ 256) × laws.law256.Stands m c
  Fits m t (text384 c) = (t ≡ 384) × laws.law384.Stands m c
  Fits m t (text512 c) = (t ≡ 512) × laws.law512.Stands m c

  abbrev pub Holds : List ℕ → ShaContainer machine_le s → Type 0
  Holds m sc = Fits m sc.tag sc.con

  update_con-Fits :
      (m bytes : List ℕ) (t : ℕ) (con : Con machine_le s)
      → Fits m t con
      → length bytes + 64 ≤ 2 ^ 32
      → (con' : Con machine_le s) × (update_con machine_le s t con bytes ≡ result con')
        × Fits (m ++ bytes) t con'
  unfolding update_con
  update_con-Fits m bytes t (text1 c) (e, h) l = (
    text1 ((sha1_algorithm machine_le).update c bytes),
    rw e refl,
    (e, (sha1_law machine_le).update_lem m bytes c h l),
  )
  update_con-Fits m bytes t (text224 c) (e, h) l =
      (text224 (s.sha224.update c bytes), rw e refl, (e, laws.law224.update_lem m bytes c h l))
  update_con-Fits m bytes t (text256 c) (e, h) l =
      (text256 (s.sha256.update c bytes), rw e refl, (e, laws.law256.update_lem m bytes c h l))
  update_con-Fits m bytes t (text384 c) (e, h) l =
      (text384 (s.sha384.update c bytes), rw e refl, (e, laws.law384.update_lem m bytes c h l))
  update_con-Fits m bytes t (text512 c) (e, h) l =
      (text512 (s.sha512.update c bytes), rw e refl, (e, laws.law512.update_lem m bytes c h l))

  final_con-Fits :
      (m : List ℕ) (t : ℕ) (con : Con machine_le s)
      → Fits m t con
      → (con' : Con machine_le s) × (final_con machine_le s t con ≡ result (digest_by t m, con'))
  unfolding final_con
  final_con-Fits m t (text1 c) (e, h) = (
    text1 ((sha1_algorithm machine_le).final c).1,
    rw (e, (sha1_law machine_le).final_lem m c h) refl,
  )
  final_con-Fits m t (text224 c) (e, h) =
      (text224 (s.sha224.final c).1, rw (e, laws.law224.final_lem m c h) refl)
  final_con-Fits m t (text256 c) (e, h) =
      (text256 (s.sha256.final c).1, rw (e, laws.law256.final_lem m c h) refl)
  final_con-Fits m t (text384 c) (e, h) =
      (text384 (s.sha384.final c).1, rw (e, laws.law384.final_lem m c h) refl)
  final_con-Fits m t (text512 c) (e, h) =
      (text512 (s.sha512.final c).1, rw (e, laws.law512.final_lem m c h) refl)

  -- The context that a size gets.
  abbrev Made : ℕ → (ℕ → Option (List ℕ)) → Type 0
  Made t malloc =
      (con : Con machine_le s) × (init_con machine_le s t malloc ≡ result con) × Fits [] t con

  init_con-1 :
      (malloc : ℕ → Option (List ℕ)) (raw : List ℕ)
      → malloc (sha1_algorithm machine_le).size ≡ some raw
      → length raw ≡ (sha1_algorithm machine_le).size
      → Made 1 malloc
  unfolding init_con
  init_con-1 malloc raw e l = (
    text1 ((sha1_algorithm machine_le).init raw),
    rw e refl,
    (refl, (sha1_law machine_le).init_lem raw l),
  )

  init_con-224 :
      (malloc : ℕ → Option (List ℕ)) (raw : List ℕ)
      → malloc s.sha224.size ≡ some raw
      → length raw ≡ s.sha224.size
      → Made 224 malloc
  unfolding init_con
  init_con-224 malloc raw e l =
      (text224 (s.sha224.init raw), rw e refl, (refl, laws.law224.init_lem raw l))

  init_con-256 :
      (malloc : ℕ → Option (List ℕ)) (raw : List ℕ)
      → malloc s.sha256.size ≡ some raw
      → length raw ≡ s.sha256.size
      → Made 256 malloc
  unfolding init_con
  init_con-256 malloc raw e l =
      (text256 (s.sha256.init raw), rw e refl, (refl, laws.law256.init_lem raw l))

  init_con-384 :
      (malloc : ℕ → Option (List ℕ)) (raw : List ℕ)
      → malloc s.sha384.size ≡ some raw
      → length raw ≡ s.sha384.size
      → Made 384 malloc
  unfolding init_con
  init_con-384 malloc raw e l =
      (text384 (s.sha384.init raw), rw e refl, (refl, laws.law384.init_lem raw l))

  init_con-512 :
      (malloc : ℕ → Option (List ℕ)) (raw : List ℕ)
      → malloc s.sha512.size ≡ some raw
      → length raw ≡ s.sha512.size
      → Made 512 malloc
  unfolding init_con
  init_con-512 malloc raw e l =
      (text512 (s.sha512.init raw), rw e refl, (refl, laws.law512.init_lem raw l))

  init_con-Fits :
      (t : ℕ) (malloc : ℕ → Option (List ℕ))
      → is_size t ≡ true
      → ((n : ℕ) → (raw : List ℕ) × (malloc n ≡ some raw) × (length raw ≡ n))
      → Made t malloc
  init_con-Fits t malloc h m = elim (size_cases t h) [
    | inl e ↦
        let (raw, a, b) = m (sha1_algorithm machine_le).size in rw e (init_con-1 malloc raw a b)
    | inr (inl e) ↦ let (raw, a, b) = m s.sha224.size in rw e (init_con-224 malloc raw a b)
    | inr (inr (inl e)) ↦ let (raw, a, b) = m s.sha256.size in rw e (init_con-256 malloc raw a b)
    | inr (inr (inr (inl e))) ↦
        let (raw, a, b) = m s.sha384.size in rw e (init_con-384 malloc raw a b)
    | inr (inr (inr (inr e))) ↦
        let (raw, a, b) = m s.sha512.size in rw e (init_con-512 malloc raw a b)
  ]

  -- sha_init of the five sizes, where both blocks of memory are had.
  pub sha_init-Holds :
      (i : ℤ) (malloc : ℕ → Option (List ℕ))
      → is_size (to_uint32 i) ≡ true
      → ((n : ℕ) → (raw : List ℕ) × (malloc n ≡ some raw) × (length raw ≡ n))
      → (sc : ShaContainer machine_le s) × (sha_init machine_le s (int i) true malloc ≡ result sc)
        × Holds [] sc
        × (sc.tag ≡ to_uint32 i)
  unfolding sha_init
  sha_init-Holds i malloc h m =
      let (con, e, f) = init_con-Fits (to_uint32 i) malloc h m in
      (record { tag = to_uint32 i; con = con }, rw e refl, f, refl)

  pub sha_update-Holds :
      (m bytes : List ℕ) (sc : ShaContainer machine_le s)
      → Holds m sc
      → length bytes + 64 ≤ 2 ^ 32
      → (sc' : ShaContainer machine_le s) × (sha_update machine_le s
            (container (some sc))
            (string bytes)
          ≡ result sc')
        × Holds (m ++ bytes) sc'
        × (sc'.tag ≡ sc.tag)
  unfolding sha_update
  sha_update-Holds m bytes sc h l =
      let (con, e, f) = update_con-Fits m bytes sc.tag sc.con h l in
      (record sc { con = con }, rw e refl, f, refl)

  pub sha_final-Holds :
      (m : List ℕ) (sc : ShaContainer machine_le s)
      → Holds m sc
      → (sc' : ShaContainer machine_le s) × (sha_final machine_le s (container (some sc))
          ≡ result (digest_by sc.tag m, sc'))
  unfolding sha_final
  sha_final-Holds m sc h =
      let (con, e) = final_con-Fits m sc.tag sc.con h in (record sc { con = con }, rw e refl)

  tag-is_size : (m : List ℕ) (t : ℕ) (con : Con machine_le s) → Fits m t con → is_size t ≡ true
  tag-is_size m t (text1 c) (e, h) = rw e refl
  tag-is_size m t (text224 c) (e, h) = rw e refl
  tag-is_size m t (text256 c) (e, h) = rw e refl
  tag-is_size m t (text384 c) (e, h) = rw e refl
  tag-is_size m t (text512 c) (e, h) = rw e refl

  -- sha_string on a container that holds `m` and a message of any length: it ends, with the message's
  -- length as fuel, and the container of the same size holds `m` and the message.
  pub sha_string-Holds :
      (fuel : ℕ) (m bytes : List ℕ) (sc : ShaContainer machine_le s)
      → Holds m sc
      → length bytes ≤ fuel
      → (sc' : ShaContainer machine_le s) × (sha_string machine_le s fuel sc bytes ≡ result sc')
        × Holds (m ++ bytes) sc'
        × (sc'.tag ≡ sc.tag)
  unfolding sha_string
  sha_string-Holds zero m [] sc h l = (sc, refl, rw (append-nil m) h, refl)
  sha_string-Holds zero m (b ∷ bytes) sc h l = absurd (omega arith)
  sha_string-Holds (suc fuel) m [] sc h l = (sc, refl, rw (append-nil m) h, refl)
  sha_string-Holds (suc fuel) m (b ∷ bytes) sc h l =
      let chunk = take 16384 (b ∷ bytes) in
      let rest = drop 16384 (b ∷ bytes) in
      let (con, e, f) =
        update_con-Fits m chunk sc.tag sc.con h (omega (arith, length-take 16384 (b ∷ bytes))) in
      let (sc', e', f', t) =
        sha_string-Holds fuel (m ++ chunk) rest (record sc { con = con }) f
          (omega (arith, length-drop 16384 (b ∷ bytes))) in
      (
        sc',
        rw (tag-is_size m sc.tag sc.con h, e) e',
        subst (λ x. Holds x sc')
            (append_assoc m chunk rest ∙ ap (λ x. m ++ x) (take-append-drop 16384 (b ∷ bytes))) f',
        t,
      )
