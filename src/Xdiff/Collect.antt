-- ===== src/Xdiff/Collect.antt =====
-- The buffer of dll_src/xdiff/src/xdiff.c collects what append_data is given.
use caffeine_hx.Common.{
  ℕ, ◌+◌, ◌%◌, ◌^◌, ◌<◌, ◌≤◌, ◌≡◌, refl, ap, ◌∙◌, Bool, true, false, List, [], ◌∷◌, ◌++◌, none,
  some, length, take, write_at, length-write_at, take-write_at, length-append, append_assoc,
  Option-cases, append-nil, replicate, inl, inr, leb, if◌then◌else◌, arith,
}
use caffeine_hx.Xdiff.{
  Allocator, IsAllocator, Outbuf, Appended, appended, refused, lost, append_chunks, append_data,
  append_all, on_appended,
}

abbrev pub concat : List (List ℕ) → List ℕ
concat [] = []
concat (chunk ∷ chunks) = chunk ++ concat chunks

abbrev pub concat_all : List (List (List ℕ)) → List ℕ
concat_all [] = []
concat_all (chunks ∷ calls) = concat chunks ++ concat_all calls

-- A buffer with a block that holds the bytes, those that append_data counts.
pub record Collects (buf : Outbuf) (bytes : List ℕ) : Type 0 where
  pub block : List ℕ
  pub allocated : buf.p ≡ some block
  pub counted : (if buf.has_data then buf.len else 0) ≡ length bytes
  pub within : length bytes ≤ length block
  pub contents : take (length bytes) block ≡ bytes

-- The bytes are collected; or a realloc to no more than the bytes and one failed, its block is lost, and
-- the buffer is empty.
pub data IsAppended (al : Allocator) (bytes : List ℕ) : Appended → Type 0 where
  collected : (buf : Outbuf) → Collects buf bytes → IsAppended al bytes (appended buf)
  no_memory :
      (b : List ℕ) (n : ℕ)
      → n ≤ length bytes + 1
      → al.realloc b n ≡ none
      → IsAppended al bytes (refused (lost al))

if_again : (b : Bool) (n : ℕ) → (if b then (if b then n else 0) else 0) ≡ (if b then n else 0)
if_again true n = refl
if_again false n = refl

small : (n : ℕ) → n < 2 ^ 32 → n % 2 ^ 32 ≡ n
small n h = omega arith

module _ (al : Allocator) (good : IsAllocator al) where
  append_chunks-IsAppended :
      (more : Bool) (len : ℕ) (b : List ℕ) (chunks : List (List ℕ)) (bytes : List ℕ)
      → (if more then len else 0) ≡ len
      → len ≡ length bytes
      → length bytes ≤ length b
      → take (length bytes) b ≡ bytes
      → length bytes + length (concat chunks) + 1 < 2 ^ 32
      → IsAppended al (bytes ++ concat chunks) (append_chunks al more len b chunks)
  unfolding append_chunks
  append_chunks-IsAppended more len b [] bytes f e w t below = rw (append-nil bytes) (
      collected (record { p = some b; has_data = more; len = len })
        (record { block = b; allocated = refl; counted = f ∙ e; within = w; contents = t }))
  append_chunks-IsAppended more len b (chunk ∷ chunks) bytes f e w t below =
      let both = length-append chunk (concat chunks) in
      let all = length-append bytes (chunk ++ concat chunks) in
      let cut = small (len + length chunk + 1) (omega (arith, both, e, below)) in
      elim (Option-cases (al.realloc b (len + length chunk + 1))) [
        | inr none_had ↦
            rw (cut, none_had, append_chunks)
              (no_memory b (len + length chunk + 1) (omega (arith, both, all, e)) none_had)
        | inl (b', had) ↦
            let size = good.resized b b' (len + length chunk + 1) had in
            let room : leb (len + length chunk) (length b') ≡ true = ground (arith, size) in
            let kept =
              good.kept b b' (len + length chunk + 1) len had (omega arith) (omega (arith, e)) in
            let written : take (len + length chunk) (write_at len chunk b') ≡ bytes ++ chunk =
              take-write_at len chunk b' (omega (arith, size))
              ∙ ap (λ t. t ++ chunk) (kept ∙ rw e t) in
            let longer : len + length chunk ≡ length (bytes ++ chunk) =
              rw (length-append bytes chunk, e) refl in
            let wide : length (bytes ++ chunk) ≤ length (write_at len chunk b') =
              rw (length-write_at len chunk b' (omega (arith, size)))
                (omega (arith, size, longer)) in
            rw (cut, had, append_chunks)
              (rw (room, ← append_assoc bytes chunk (concat chunks))
                (append_chunks-IsAppended true (len + length chunk) (write_at len chunk b') chunks
                  (bytes ++ chunk) refl longer wide (rw (← longer) written)
                  (omega (arith, both, e, longer, below))))
      ]

  append_data-IsAppended :
      (buf : Outbuf) (chunks : List (List ℕ)) (bytes : List ℕ)
      → Collects buf bytes
      → length bytes + length (concat chunks) + 1 < 2 ^ 32
      → IsAppended al (bytes ++ concat chunks) (append_data al buf chunks)
  unfolding append_data
  append_data-IsAppended buf chunks bytes c below =
      let same : (if buf.has_data then (if buf.has_data then buf.len else 0) else 0)
          ≡ (if buf.has_data then buf.len else 0) =
        if_again buf.has_data buf.len in
      rw c.allocated (
        append_chunks-IsAppended buf.has_data (if buf.has_data then buf.len else 0) c.block chunks
          bytes same c.counted c.within c.contents below)

  on_appended-IsAppended :
      (go_on : Outbuf → Appended) (bytes all : List ℕ) (r : Appended)
      → length bytes ≤ length all
      → IsAppended al bytes r
      → ((buf : Outbuf) → Collects buf bytes → IsAppended al all (go_on buf))
      → IsAppended al all (on_appended al go_on r)
  on_appended-IsAppended go_on bytes all _ longer (collected buf c) k = k buf c
  on_appended-IsAppended go_on bytes all _ longer (no_memory b n within h) k =
      no_memory b n (omega arith) h

  -- Any calls of append_data in a row, from a buffer that holds bytes, add up to the concatenation of what
  -- they are given behind the bytes, or a realloc to no more than these bytes and one fails; nothing is
  -- written behind the end of a block. The bytes and one are below 2 ^ 32, so that no size is cut, and
  -- malloc and realloc keep their promises.
  pub append_all-IsAppended :
      (calls : List (List (List ℕ))) (buf : Outbuf) (bytes : List ℕ)
      → Collects buf bytes
      → length bytes + length (concat_all calls) + 1 < 2 ^ 32
      → IsAppended al (bytes ++ concat_all calls) (append_all al buf calls)
  unfolding append_all
  append_all-IsAppended [] buf bytes c below = rw (append-nil bytes) (collected buf c)
  append_all-IsAppended (chunks ∷ calls) buf bytes c below =
      let both = length-append (concat chunks) (concat_all calls) in
      let here = length-append bytes (concat chunks) in
      let all = length-append (bytes ++ concat chunks) (concat_all calls) in
      rw (← append_assoc bytes (concat chunks) (concat_all calls)) (
        on_appended-IsAppended (λ b. append_all al b calls) (bytes ++ concat chunks)
          ((bytes ++ concat chunks) ++ concat_all calls) (append_data al buf chunks)
          (omega (arith, all))
          (append_data-IsAppended buf chunks bytes c (omega (arith, both, below)))
          (λ b d.
            append_all-IsAppended calls b (bytes ++ concat chunks) d
              (omega (arith, both, here, below))))

-- A new buffer holds no bytes.
pub fresh-Collects :
    (n : ℕ) → Collects (record { p = some (replicate n 0); has_data = false; len = n }) []
fresh-Collects n = record {
  block = replicate n 0;
  allocated = refl;
  counted = refl;
  within = omega arith;
  contents = refl;
}
