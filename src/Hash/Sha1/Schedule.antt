-- ===== src/Hash/Sha1/Schedule.antt =====
-- The message schedule of FIPS 180 against the block of sixteen words that SHA1Transform
-- (dll_src/hash/src/sha1.c) overwrites.
use Prim.Native.Nat.{bit_xor}
use caffeine_hx.Common.{
  ℕ, zero, suc, ◌+◌, ◌-◌, ◌%◌, ◌/◌, ◌≤◌, ◌<◌, ◌≡◌, ◌≢◌, refl, ap, sym, ◌∙◌, Bool, Bool-cases, true,
  false, inl, inr, List, [], ◌∷◌, ◌++◌, map, append_assoc, append-nil, length, length-append,
  length-set, length-take, set, take, get_or-set_self, get_or-set_ne, set-length_append, ltb, ◌==◌,
  if◌then◌else◌, arith,
}
use caffeine_hx.Hash.Sha1.Transform.{
  rol, Registers, load, swap_bytes, word_at, blk, fetch, round, rounds, add_registers,
  sha1_transform,
}

-- The word behind a schedule: of the words 3, 8, 14 and 16 places back.
abbrev pub next_word : List ℕ → ℕ
next_word s =
    let t = length s in
    rol
      (bit_xor (bit_xor (bit_xor (word_at s (t - 3)) (word_at s (t - 8))) (word_at s (t - 14)))
        (word_at s (t - 16)))
      1

-- The next words of a schedule.
abbrev pub further_words : ℕ → List ℕ → List ℕ
further_words zero s = []
further_words (suc n) s = next_word s ∷ further_words n (s ++ next_word s ∷ [])

-- The eighty words of a block of sixteen.
abbrev pub schedule : List ℕ → List ℕ
schedule m = m ++ further_words 64 m

-- The rounds over words, from round `i` on.
abbrev pub compress : ℕ → List ℕ → Registers → Registers
compress i [] r = r
compress i (w ∷ ws) r = compress (i + 1) ws (round i w r)

-- What `blk0` or `blk0le` reads.
abbrev pub read_word : Bool → ℕ → ℕ
read_word le w = if le then swap_bytes w else w

-- A block of sixteen words holds the last sixteen of a schedule, each at its place modulo 16.
record IsRolling (b s : List ℕ) : Type 0 where
  sixteen : length b ≡ 16
  long : 16 ≤ length s
  holds : (k : ℕ) → k < length s → length s ≤ k + 16 → word_at b (k % 16) ≡ word_at s k

get_or-append_lt : (xs ys : List ℕ) (k : ℕ) → k < length xs → word_at (xs ++ ys) k ≡ word_at xs k
get_or-append_lt [] ys k h = absurd (omega arith)
get_or-append_lt (x ∷ xs) ys zero h = refl
get_or-append_lt (x ∷ xs) ys (suc k) h = get_or-append_lt xs ys k (omega arith)

get_or-append_last : (xs : List ℕ) (y : ℕ) (ys : List ℕ) → word_at (xs ++ y ∷ ys) (length xs) ≡ y
get_or-append_last [] y ys = refl
get_or-append_last (x ∷ xs) y ys = get_or-append_last xs y ys

apart_places : (k t : ℕ) → k < t → t ≤ k + 15 → t % 16 ≢ k % 16
apart_places k t h l e = omega arith

-- Behind a round the block holds the last sixteen of the longer schedule.
roll : (b s : List ℕ) (w : ℕ) → IsRolling b s → IsRolling (set b (length s % 16) w) (s ++ w ∷ [])
roll b s w r = record {
  sixteen = length-set b (length s % 16) w ∙ r.sixteen;
  long = rw (length-append s (w ∷ [])) (omega (arith, r.long));
  holds = λ k below near.
      let size : length (s ++ w ∷ []) ≡ length s + 1 = length-append s (w ∷ []) in
      let room : length s % 16 < length b = omega (arith, r.sixteen) in
      elim (Bool-cases (k == length s)) [
        | inl t ↦
            let e : k ≡ length s = ground (arith, t) in
            rw e (get_or-set_self b (length s % 16) w 0 room ∙ sym (get_or-append_last s w []))
        | inr t ↦
            let ne : k ≢ length s = ground (arith, t) in
            let before : k < length s = omega (arith, size, ne, below) in
            let close : length s ≤ k + 15 = omega (arith, size, near) in
            let apart : length s % 16 ≢ k % 16 = apart_places k (length s) before close in
            get_or-set_ne b (length s % 16) (k % 16) w 0 apart
            ∙ r.holds k before (omega (arith, close))
            ∙ sym (get_or-append_lt s (w ∷ []) k before)
      ];
}

-- `blk` computes the next word of the schedule.
blk-next_word : (b s : List ℕ) → IsRolling b s → blk b (length s) ≡ next_word s
unfolding blk
blk-next_word b s r =
    let t = length s in
    let long = r.long in
    let at = λ (k : ℕ). r.holds k in
    let m3 : (t + 13) % 16 ≡ (t - 3) % 16 = omega arith in
    let m8 : (t + 8) % 16 ≡ (t - 8) % 16 = omega arith in
    let m14 : (t + 2) % 16 ≡ (t - 14) % 16 = omega arith in
    let m16 : t % 16 ≡ (t - 16) % 16 = omega arith in
    rw
      (
        m3,
        m8,
        m14,
        m16,
        r.holds (t - 3) (omega arith) (omega arith),
        r.holds (t - 8) (omega arith) (omega arith),
        r.holds (t - 14) (omega arith) (omega arith),
        r.holds (t - 16) (omega arith) (omega arith),
      )
      refl

rounds-further_words :
    (le : Bool) (n : ℕ) (b s : List ℕ) (r : Registers)
    → IsRolling b s
    → rounds le n (length s) b r ≡ compress (length s) (further_words n s) r
unfolding rounds fetch
rounds-further_words le zero b s r rolling = refl
rounds-further_words le (suc n) b s r rolling =
    let w = next_word s in
    let long = rolling.long in
    let late : ltb (length s) 16 ≡ false = ground arith in
    let size : length (s ++ w ∷ []) ≡ length s + 1 = length-append s (w ∷ []) in
    let rest =
      rounds-further_words le n (set b (length s % 16) w) (s ++ w ∷ []) (round (length s) w r)
        (roll b s w rolling) in
    rw (late, blk-next_word b s rolling) (rw size at rest)

-- A block that holds the words of the schedule so far, sixteen of them.
start-IsRolling : (s : List ℕ) → length s ≡ 16 → IsRolling s s
start-IsRolling s h = record {
  sixteen = h;
  long = omega (arith, h);
  holds = λ k below near. let place : k % 16 ≡ k = omega (arith, h, below) in rw place refl;
}

-- The first sixteen rounds read the block, of which `done` is behind and `left` ahead.
rounds-read_word :
    (le : Bool) (n : ℕ) (done left : List ℕ) (r : Registers)
    → length done + length left ≡ 16
    → rounds le (length left + n) (length done) (done ++ left) r
      ≡ compress
          (length done)
          (map (read_word le) left ++ further_words n (done ++ map (read_word le) left))
          r
unfolding rounds fetch
rounds-read_word le n done [] r h =
    let none_left : 0 + n ≡ n = omega arith in
    let all : length done ≡ 16 = omega (arith, h) in
    rw (append-nil done, none_left)
      (rounds-further_words le n done done r (start-IsRolling done all))
rounds-read_word le n done (x ∷ left) r h =
    let w = read_word le x in
    let one_less : suc (length left) + n ≡ suc (length left + n) = omega arith in
    let early : ltb (length done) 16 ≡ true = ground (arith, h) in
    let place : length done % 16 ≡ length done = omega (arith, h) in
    let size : length (done ++ w ∷ []) ≡ length done + 1 = length-append done (w ∷ []) in
    let rest =
      rounds-read_word le n (done ++ w ∷ []) left (round (length done) w r)
        (omega (arith, size, h)) in
    let rest' =
      rw
        (
          size,
          append_assoc done (w ∷ []) left,
          append_assoc done (w ∷ []) (map (read_word le) left),
        )
        at rest in
    rw (one_less, rounds)
      (rw (early, place, get_or-append_last done x left, set-length_append done x w left) rest')

length-load : (le : Bool) (xs : List ℕ) → length (load le xs) ≡ length xs / 4
unfolding load
length-load le [] = refl
length-load le (a ∷ []) = refl
length-load le (a ∷ b ∷ []) = refl
length-load le (a ∷ b ∷ c ∷ []) = refl
length-load le (a ∷ b ∷ c ∷ d ∷ rest) = ap suc (length-load le rest) ∙ omega arith

-- SHA1Transform of at least 64 bytes, on a machine of either byte order, works the eighty words of the
-- schedule of FIPS 180 in their order, made of the sixteen words that it reads.
pub sha1_transform-schedule :
    (machine_le le : Bool) (state : Registers) (buffer : List ℕ)
    → 64 ≤ length buffer
    → sha1_transform machine_le state buffer le
      ≡ add_registers state
          (compress 0 (schedule (map (read_word le) (load machine_le (take 64 buffer)))) state)
unfolding sha1_transform
sha1_transform-schedule machine_le le state buffer h =
    let block = load machine_le (take 64 buffer) in
    let words : length block ≡ 16 =
      length-load machine_le (take 64 buffer) ∙ rw (length-take 64 buffer) (omega (arith, h)) in
    let all : 0 + length block ≡ 16 = omega (arith, words) in
    ap (add_registers state) (rw words at (rounds-read_word le 64 [] block state all))
