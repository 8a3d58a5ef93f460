-- ===== src/Hash/Value.antt =====
-- Hashing a Neko value (dll_src/hash/src/sha1_lua_neko.c): sha1_uint32, sha1_string, make_sha1_fields,
-- neko_sha1 and nsha1, on a heap of objects and arrays that may refer to each other in cycles.
use caffeine_hx.Common.{
  ℕ, zero, suc, ◌+◌, ◌-◌, ◌*◌, ◌/◌, ◌%◌, ◌^◌, Bool, true, false, List, [], ◌∷◌, Option, none, some,
  length, get_elem?, ◌==◌, if◌then◌else◌,
}
use caffeine_hx.Common.Int.{ℤ, pos, negsuc}
use caffeine_hx.Common.Words.{native_bytes}
use caffeine_hx.Hash.Sha1.Context.{Context, sha1_init, sha1_update, sha1_final, update_chunks}
pub mod Ends

-- A value: objects and arrays are addresses of the heap; of a function its number of arguments, of a
-- float its bytes in memory.
pub data Value : Type 0 where
  null : Value
  int : ℤ → Value
  bool : Bool → Value
  float : List ℕ → Value
  string : List ℕ → Value
  pointer : ℕ → Value
  function : ℕ → Value
  abstract : Value

-- An object has fields, with the numbers of their names, in the order of `val_iter_fields`, and may
-- have a prototype.
pub data Cell : Type 0 where
  object : List (ℕ × Value) → Option ℕ → Cell
  array : List Value → Cell

abbrev pub Heap : Type 0
Heap = List Cell

-- `struct stack`, the innermost entry first: `pos` and the address of `v`.
abbrev pub Stack : Type 0
Stack = List (ℕ × ℕ)

-- The loop that looks for the value in the stack, and the entry put before it.
unfoldable pub position : Stack → ℕ → Option ℕ
position [] a = none
position ((p, b) ∷ s) a = let rest = position s a in if b == a then some p else rest

unfoldable pub push : ℕ → Stack → Stack
push a [] = (0, a) ∷ []
push a ((p, b) ∷ s) = ((p + 1) % 2 ^ 32, a) ∷ (p, b) ∷ s

-- `(uint32)(int_val)v`: an int is tagged, its pointer is 2 * i + 1.
abbrev pub tagged : ℤ → ℕ
tagged (pos n) = (2 * n + 1) % 2 ^ 32
tagged (negsuc n) = (2 ^ 32 - (2 * n + 1) % 2 ^ 32) % 2 ^ 32

abbrev pub and_then : {A B : Type 0} → Option A → (A → Option B) → Option B
and_then none k = none
and_then (some a) k = k a

-- The fields in their order, and the elements of an array from the last to the first.
unfoldable pub each :
    {A : Type 0} → (Context → A → Option Context) → Context → List A → Option Context
each f c [] = some c
each f c (x ∷ xs) = and_then (f c x) (λ c'. each f c' xs)

unfoldable pub each_down :
    {A : Type 0} → (Context → A → Option Context) → Context → List A → Option Context
each_down f c [] = some c
each_down f c (x ∷ xs) = and_then (each_down f c xs) (λ c'. f c' x)

module _ (machine_le : Bool) where
  unfoldable pub sha1_uint32 : Context → ℕ → Context
  sha1_uint32 c val = sha1_update machine_le c (native_bytes machine_le val)

  unfoldable pub sha1_string : Context → List ℕ → Context
  sha1_string c message = update_chunks machine_le (length message) c message

  -- The body of the case VAL_OBJECT and VAL_ARRAY behind the search; `rec` is neko_sha1 with the new
  -- entry on the stack.
  unfoldable pub visit : (Context → Value → Option Context) → Context → Cell → Option Context
  unfolding each each_down sha1_uint32
  visit rec c (object fields none) = each (λ c' f. rec (sha1_uint32 c' f.0) f.1) c fields
  visit rec c (object fields (some proto)) =
      and_then (each (λ c' f. rec (sha1_uint32 c' f.0) f.1) c fields) (λ c'. rec c' (pointer proto))
  visit rec c (array values) =
      each_down rec (sha1_uint32 c ((length values * 8) % 2 ^ 32 + 6)) values

  -- `neko_sha1(context, v, cur)` on fuel for the depth; nothing where the fuel runs out or an address
  -- is not of the heap.
  unfoldable pub neko_sha1 : ℕ → Heap → Context → Value → Stack → Option Context
  unfolding position push sha1_uint32 sha1_string visit
  neko_sha1 zero heap c v s = none
  neko_sha1 (suc fuel) heap c null s = some (sha1_uint32 c 0)
  neko_sha1 (suc fuel) heap c (int i) s = some (sha1_uint32 c (tagged i))
  neko_sha1 (suc fuel) heap c (bool b) s = some (sha1_uint32 c (if b then 8 else 16))
  neko_sha1 (suc fuel) heap c (float bytes) s = some (sha1_update machine_le c bytes)
  neko_sha1 (suc fuel) heap c (string message) s = some (sha1_string c message)
  neko_sha1 (suc fuel) heap c (function nargs) s = some (sha1_uint32 c ((nargs * 8) % 2 ^ 32 + 4))
  neko_sha1 (suc fuel) heap c abstract s = some (sha1_uint32 c 24)
  neko_sha1 (suc fuel) heap c (pointer a) s = elim (position s a) [
    | some p ↦ some (sha1_uint32 c ((p * 8) % 2 ^ 32 + 2))
    | none ↦ elim (get_elem? heap a) [
      | none ↦ none
      | some cell ↦ visit (λ c' v. neko_sha1 fuel heap c' v (push a s)) c cell
    ]
  ]

  -- `nsha1(v)`, with what the stack held in the context's block. The depth is at most the number of
  -- cells, and one more for the value at the end.
  unfoldable pub nsha1 : List ℕ → Heap → Value → Option (List ℕ)
  unfolding neko_sha1 sha1_init sha1_final
  nsha1 held heap v =
      and_then (neko_sha1 (length heap + 1) heap (sha1_init machine_le held) v [])
        (λ c. some (sha1_final machine_le c).0)
