-- ===== src/Xdiff/Answers.antt =====
-- What xdiff_string of dll_src/xdiff/src/xdiff.c answers.
use caffeine_hx.Common.{
  ℕ, ◌+◌, ◌^◌, ◌<◌, ◌≤◌, ◌&&◌, ◌⊎◌, ◌≡◌, refl, ap, subst, Bool, Bool-cases, Option-cases, true,
  false, inl, inr, List, [], ◌∷◌, none, some, length, replicate, leb, arith,
}
use caffeine_hx.Common.Int.{pos}
use caffeine_hx.Xdiff.{
  Allocator, IsAllocator, Outbuf, Appended, init_outbuf, free_outbuf, append_all,
}
use caffeine_hx.Xdiff.Collect.{
  Collects, IsAppended, collected, no_memory, concat_all, append_all-IsAppended, fresh-Collects,
}
use caffeine_hx.Xdiff.Diff.{
  Libxdiff, int, string, bool, Answer, result, thrown, buffer_init_error, copy_error_original,
  copy_error_modified, diff_error, copy_to_mmfile, string_of, finished, with_files, diff_in,
  xdiff_string,
}

-- The answers of xdiff_string with the number of blocks and files that it leaves: the text, which libxdiff
-- handed over in pieces, or an exception with its cause.
pub data IsDiff (al : Allocator) (x : Libxdiff) (minimal : Bool) (context : ℕ) (s1 s2 : List ℕ)
    : Answer × ℕ → Type 0 where
  is_text :
      x.fails minimal context s1 s2 ≡ false
      → IsDiff al x minimal context s1 s2 (result (concat_all (x.calls minimal context s1 s2)), 0)
  no_buffer : al.malloc 1 ≡ none → IsDiff al x minimal context s1 s2 (thrown buffer_init_error, 0)
  no_original :
      (x.init_mmfile 0 (length s1) && x.write_allocate 0 (length s1)) ≡ false
      → IsDiff al x minimal context s1 s2 (thrown copy_error_original, 1)
  no_modified :
      (x.init_mmfile 1 (length s2) && x.write_allocate 1 (length s2)) ≡ false
      → IsDiff al x minimal context s1 s2 (thrown copy_error_modified, 1)
  no_diff :
      x.fails minimal context s1 s2 ≡ true
      → IsDiff al x minimal context s1 s2 (thrown diff_error, 0)
  no_room :
      (b : List ℕ) (n : ℕ)
      → n ≤ length (concat_all (x.calls minimal context s1 s2)) + 1
      → al.realloc b n ≡ none
      → IsDiff al x minimal context s1 s2 (thrown diff_error, 1)

nil_of_length : (bytes : List ℕ) → 0 ≡ length bytes → bytes ≡ []
nil_of_length [] h = refl
nil_of_length (b ∷ bytes) h = absurd (omega arith)

module _ (al : Allocator) (x : Libxdiff) where
  -- The string is the bytes that the buffer holds, and the block is freed.
  string_of-Collects :
      (buf : Outbuf) (bytes : List ℕ) → Collects buf bytes → string_of al x buf ≡ (result bytes, 0)
  unfolding free_outbuf
  string_of-Collects buf bytes c = elim (Bool-cases buf.has_data) [
    | inl has ↦
        let count : buf.len ≡ length bytes = rw has at c.counted in
        let within = c.within in
        let room : leb (length bytes) (length c.block) ≡ true = ground arith in
        rw (has, c.allocated, count, room) (ap (λ t. (result t, 0)) c.contents)
    | inr empty ↦
        let count : 0 ≡ length bytes = rw empty at c.counted in
        rw (empty, c.allocated, nil_of_length bytes count) refl
  ]

  -- A copy that succeeds leaves one file, one that fails none.
  copy_to_mmfile_lem :
      (which : ℕ) (src : List ℕ)
      → ((copy_to_mmfile al x which src ≡ (true, 1))
          × ((x.init_mmfile which (length src) && x.write_allocate which (length src)) ≡ true))
        ⊎ ((copy_to_mmfile al x which src ≡ (false, 0))
            × ((x.init_mmfile which (length src) && x.write_allocate which (length src)) ≡ false))
  unfolding copy_to_mmfile
  copy_to_mmfile_lem which src = elim (Bool-cases (x.init_mmfile which (length src))) [
    | inr e ↦ inr (rw e refl, rw e refl)
    | inl e ↦ elim (Bool-cases (x.write_allocate which (length src))) [
      | inr f ↦ inr (rw (e, f) refl, rw (e, f) refl)
      | inl f ↦ inl (rw (e, f) refl, rw (e, f) refl)
    ]
  ]

  no_files : (r : Answer × ℕ) → r ≡ with_files al x 0 r
  no_files r = let same : r.1 ≡ r.1 + 0 = omega arith in ap (λ n. (r.0, n)) same

  module _ (minimal : Bool) (context : ℕ) (s1 s2 : List ℕ) where
    finished-IsDiff :
        (fails : Bool) (r : Appended)
        → x.fails minimal context s1 s2 ≡ fails
        → IsAppended al (concat_all (x.calls minimal context s1 s2)) r
        → IsDiff al x minimal context s1 s2 (finished al x fails r)
    unfolding free_outbuf
    finished-IsDiff true _ e (collected buf c) = rw c.allocated (no_diff e)
    finished-IsDiff false _ e (collected buf c) =
        rw (string_of-Collects buf (concat_all (x.calls minimal context s1 s2)) c) (is_text e)
    finished-IsDiff fails _ e (no_memory b n within h) = no_room b n within h

    diff_in-IsDiff :
        (good : IsAllocator al) (buf : Outbuf)
        → Collects buf []
        → length (concat_all (x.calls minimal context s1 s2)) + 1 < 2 ^ 32
        → IsDiff al x minimal context s1 s2 (diff_in al x minimal context s1 s2 (some buf))
    diff_in-IsDiff good buf c below =
        let r =
          finished al x (x.fails minimal context s1 s2)
            (append_all al buf (x.calls minimal context s1 s2)) in
        elim (copy_to_mmfile_lem 0 s1) [
          | inr (e, f) ↦ rw (e, c.allocated) (no_original f)
          | inl (first, f) ↦ elim (copy_to_mmfile_lem 1 s2) [
            | inr (e, g) ↦ rw (first, e, c.allocated) (no_modified g)
            | inl (second, g) ↦
                rw (first, second)
                  (subst (IsDiff al x minimal context s1 s2) (no_files r) (
                    finished-IsDiff (x.fails minimal context s1 s2)
                      (append_all al buf (x.calls minimal context s1 s2)) refl
                      (append_all-IsAppended al good (x.calls minimal context s1 s2) buf [] c
                        (omega (arith, below)))))
          ]
        ]

  -- xdiff_string of two strings, a context that is not negative and a Boolean, with a malloc and a
  -- realloc that keep their promises or fail, where all that xdl_diff hands to append_data and one byte are
  -- below 2 ^ 32, answers with the concatenation of it if xdl_diff does not fail, and frees the block and
  -- both files; or it throws for a malloc, a file or a realloc that fails, or a failure of xdl_diff. It
  -- leaves the block of its buffer where a file cannot be made, and a block that cannot grow, never a file.
  pub xdiff_string-IsDiff :
      (good : IsAllocator al) (minimal : Bool) (context : ℕ) (s1 s2 : List ℕ)
      → length (concat_all (x.calls minimal context s1 s2)) + 1 < 2 ^ 32
      → IsDiff al x minimal context s1 s2
          (xdiff_string al x (string s1) (string s2) (int (pos context)) (bool minimal))
  unfolding xdiff_string init_outbuf
  xdiff_string-IsDiff good minimal context s1 s2 below = elim (Option-cases (al.malloc 1)) [
    | inr e ↦ rw e (no_buffer e)
    | inl (b, e) ↦ rw e (
        diff_in-IsDiff minimal context s1 s2 good
          (record { p = some (replicate 1 0); has_data = false; len = 1 }) (fresh-Collects 1) below)
  ]
