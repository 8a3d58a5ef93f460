-- ===== src/Xdiff/Tests.antt =====
-- A libxdiff that hands over both files, and the theorems on xdiff.c at concrete inputs.
use caffeine_hx.Common.{
  ℕ, ◌≡◌, ◌∙◌, true, false, List, [], ◌∷◌, ◌++◌, some, length, take, replicate, arith, length-take,
  length-append, length-replicate, take-take_le, take-append_le,
}
use caffeine_hx.Common.Int.{pos}
use caffeine_hx.Xdiff.{Allocator, IsAllocator, append_all}
use caffeine_hx.Xdiff.Answers.{IsDiff, xdiff_string-IsDiff}
use caffeine_hx.Xdiff.Collect.{IsAppended, concat_all, append_all-IsAppended, fresh-Collects}
use caffeine_hx.Xdiff.Diff.{Libxdiff, int, string, bool, xdiff_string}

abbrev memory : Allocator
memory = record {
  malloc = λ n. some (replicate n 0);
  realloc = λ b n. some (take n (b ++ replicate n 0));
}

same_block : {x y : List ℕ} → some x ≡ some y → y ≡ x
same_block h = cc

length-resized : (b : List ℕ) (n : ℕ) → length (take n (b ++ replicate n 0)) ≡ n
length-resized b n =
    length-take n (b ++ replicate n 0)
    ∙ rw (length-append b (replicate n 0), length-replicate {A = ℕ} n 0) (omega arith)

memory-IsAllocator : IsAllocator memory
memory-IsAllocator = record {
  given = λ n b h. rw (same_block h) (length-replicate n 0);
  resized = λ b b' n h. rw (same_block h) (length-resized b n);
  kept = λ b b' n m h below within.
      rw (same_block h)
        (take-take_le m n (b ++ replicate n 0) below ∙ take-append_le m b (replicate n 0) within);
}

abbrev both : Libxdiff
both = record {
  init_mmfile = λ i n. true;
  write_allocate = λ i n. true;
  calls = λ minimal context s1 s2. ((b'-' ∷ []) ∷ s1 ∷ []) ∷ [] ∷ ((b'+' ∷ []) ∷ s2 ∷ []) ∷ [];
  fails = λ minimal context s1 s2. false;
}

abbrev old : List ℕ
old = b'a' ∷ b'b' ∷ []

abbrev new : List ℕ
new = b'c' ∷ []

abbrev handed : List (List (List ℕ))
handed = both.calls false 3 old new

append_all-IsAppended_example :
    IsAppended memory
      (concat_all handed)
      (append_all memory (record { p = some (replicate 1 0); has_data = false; len = 1 }) handed)
append_all-IsAppended_example =
    append_all-IsAppended memory memory-IsAllocator handed
      (record { p = some (replicate 1 0); has_data = false; len = 1 }) [] (fresh-Collects 1)
      (omega arith)

xdiff_string-IsDiff_example :
    IsDiff memory both false 3 old new
      (xdiff_string memory both (string old) (string new) (int (pos 3)) (bool false))
xdiff_string-IsDiff_example =
    xdiff_string-IsDiff memory both memory-IsAllocator false 3 old new (omega arith)
