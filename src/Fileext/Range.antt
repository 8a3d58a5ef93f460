-- ===== src/Fileext/Range.antt =====
-- The bounds of `fileext_read` and `fileext_write` of dll_src/fileext/src/fileext.cpp, and the loop of
-- `read` behind an interrupt.
use caffeine_hx.Common.{
  ℕ, zero, suc, ◌+◌, ◌≤◌, ◌<◌, ◌^◌, ◌≡◌, refl, Bool, true, false, List, [], ◌++◌, some, length,
  get_elem?, take, drop, ltb, ◌||◌, arith, lt→ltb, length-take, length-drop,
}
use caffeine_hx.Common.Int.{ℤ, pos}
use caffeine_hx.Common.Slots.{slot}
use caffeine_hx.Fileext.{Stdio, Fio, eintr, endless, read_loop}
use caffeine_hx.Fileext.Prims.{
  int, string, file, null, System, result, overrun, out_of_range, unending, fileext_read_char, put,
  stored, fileext_read, fileext_write,
}
use caffeine_hx.Fileext.Loop.{Fed, Enough, read_loop-Reads}
use caffeine_hx.Fileext.Written.{Takes, write_loop-Writes}

module _ (e : Stdio) where
  -- The test of the source is what it means to be, where the sum fits an `int`.
  out_of_range-false :
      (p l n : ℕ) → p + l ≤ n → p + l < 2 ^ 31 → out_of_range e (pos p) (pos l) n ≡ false
  unfolding out_of_range
  out_of_range-false p l n h k =
      let within : ltb n p ≡ false = ground arith in
      let small : ltb (p + l) (2 ^ 31) ≡ true = lt→ltb (p + l) (2 ^ 31) k in
      let fits : ltb n (p + l) ≡ false = ground arith in rw (within, small, fits) refl

  out_of_range-true :
      (p l n : ℕ) → n < p + l → p + l < 2 ^ 31 → out_of_range e (pos p) (pos l) n ≡ true
  unfolding out_of_range
  out_of_range-true p l n h k =
      let small : ltb (p + l) (2 ^ 31) ≡ true = lt→ltb (p + l) (2 ^ 31) k in
      let beyond : ltb n (p + l) ≡ true = ground arith in rw (small, beyond) (or_true (ltb n p))
    where
      or_true : (b : Bool) → (b || true) ≡ true
      or_true true = refl
      or_true false = refl

  -- It lets a sum pass that does not.
  out_of_range-wraps :
      (p l n : ℕ) → p ≤ n → 2 ^ 31 ≤ p + l → out_of_range e (pos p) (pos l) n ≡ false
  unfolding out_of_range
  out_of_range-wraps p l n h k =
      let within : ltb n p ≡ false = ground arith in
      let large : ltb (p + l) (2 ^ 31) ≡ false = ground (arith, k) in rw (within, large) refl

  module _ (i j st : ℕ) (f : Fio) (buf : List ℕ) (s : System e)
      (file_there : slot s.files i ≡ some f) (is_open : f.io ≡ some st)
      (string_there : get_elem? s.strings j ≡ some buf) where
    -- On an open file, for a position and a number of bytes within the string, with their sum below 2 ^ 31:
    -- if the stream has that many bytes, whatever its interrupts, or is interrupted no more and ferror is
    -- false, `fileext_read` ends when the fuel is the number of bytes and of interrupts. It gives how many
    -- bytes there were, up to the number, puts these behind the position into the string, changes no other
    -- string, and what the stream has left is what follows.
    pub fileext_read-delivers :
        (rest : e.World → List ℕ) (faults : e.World → ℕ) (fuel p l : ℕ)
        → ((n : ℕ) (w : e.World) → Fed e st rest faults n w)
        → p + l ≤ length buf
        → p + l < 2 ^ 31
        → Enough e st rest faults l s.world
        → l + faults s.world ≤ fuel
        → (last : ℤ) × ((w : e.World) × (fileext_read e fuel
                (file (some i))
                (string j)
                (int (pos p))
                (int (pos l))
                s
              ≡ result (int (pos (length (take l (rest s.world))))) (
                  put e i
                    (record f { last_error = last })
                    w
                    (stored e j p buf (take l (rest s.world)) s)))
            × (rest w ≡ drop l (rest s.world)))
    unfolding fileext_read
    fileext_read-delivers rest faults fuel p l fed le small enough fuel_le =
        let (last, (w, q, r)) =
          read_loop-Reads e st rest faults fed fuel l [] f.last_error s.world enough fuel_le in
        let fits : ltb (length buf) (p + l) ≡ false = ground (arith, le) in
        (
          last,
          (
            w,
            rw
                (
                  file_there,
                  string_there,
                  out_of_range-false p l (length buf) le small,
                  is_open,
                  fits,
                  q,
                )
                refl,
            r,
          ),
        )

    -- On an open file, for a position within a string of fewer than 2 ^ 31 bytes, with a sum of position and
    -- number from 2 ^ 31 on, as an `int` of 32 bits has it, `fileext_read` passes its own test and lets fread
    -- write behind the string.
    pub fileext_read-overrun :
        (fuel p l : ℕ)
        → length buf < 2 ^ 31
        → p ≤ length buf
        → 2 ^ 31 ≤ p + l
        → fileext_read e fuel (file (some i)) (string j) (int (pos p)) (int (pos l)) s ≡ overrun
    unfolding fileext_read
    fileext_read-overrun fuel p l short within large =
        let beyond : ltb (length buf) (p + l) ≡ true =
          lt→ltb (length buf) (p + l) (omega (arith, short, large)) in
        rw
          (
            file_there,
            string_there,
            out_of_range-wraps p l (length buf) within large,
            is_open,
            beyond,
          )
          refl

    -- With a sum below 2 ^ 31 that is more than the length of the string, `fileext_read` and `fileext_write`
    -- give null and change nothing.
    pub fileext_read-null :
        (fuel p l : ℕ)
        → length buf < p + l
        → p + l < 2 ^ 31
        → (fileext_read e fuel (file (some i)) (string j) (int (pos p)) (int (pos l)) s
            ≡ result null s)
          × (fileext_write e fuel (file (some i)) (string j) (int (pos p)) (int (pos l)) s
              ≡ result null s)
    unfolding fileext_read fileext_write
    fileext_read-null fuel p l beyond small =
        let outside = out_of_range-true p l (length buf) beyond small in
        (rw (file_there, string_there, outside) refl, rw (file_there, string_there, outside) refl)

    -- On an open file whose stream takes some of the bytes or is interrupted by a signal, finitely often,
    -- and for a position and a number of bytes within the string, with their sum below 2 ^ 31,
    -- `fileext_write` ends when the fuel is the number of bytes and of interrupts. It gives the number, and
    -- the stream has been given the bytes behind the position, in order.
    pub fileext_write-writes :
        (sink : e.World → List ℕ) (faults : e.World → ℕ) (fuel p l : ℕ)
        → ((b : ℕ) (bs : List ℕ) (w : e.World) → Takes e st sink faults b bs w)
        → p + l ≤ length buf
        → p + l < 2 ^ 31
        → l + faults s.world ≤ fuel
        → (last : ℤ) × ((w : e.World) × (fileext_write e fuel
                (file (some i))
                (string j)
                (int (pos p))
                (int (pos l))
                s
              ≡ result (int (pos l)) (put e i (record f { last_error = last }) w s))
            × (sink w ≡ sink s.world ++ take l (drop p buf)))
    unfolding fileext_write
    fileext_write-writes sink faults fuel p l each le small fuel_le =
        let size = length-take l (drop p buf) in
        let size' = length-drop p buf in
        let exact : length (take l (drop p buf)) ≡ l = omega (arith, size, size', le) in
        let (last, (w, q, r)) =
          write_loop-Writes e st sink faults each fuel (take l (drop p buf)) 0 f.last_error s.world
            (omega (arith, exact, fuel_le)) in
        let fits : ltb (length buf) (p + l) ≡ false = ground (arith, le) in
        let count : 0 + length (take l (drop p buf)) ≡ l = omega (arith, exact) in
        (
          last,
          (
            w,
            rw
                (
                  file_there,
                  string_there,
                  out_of_range-false p l (length buf) le small,
                  is_open,
                  fits,
                  q,
                  count,
                )
                refl,
            r,
          ),
        )

  -- The worlds in which each read of a stream finds nothing, with ferror and EINTR, and leaves one of them.
  abbrev pub Stuck : ℕ → (e.World → Type 0) → Type 0
  Stuck st P =
      (w : e.World) (n : ℕ)
      → P w
      → ((e.fread st (suc n) w).1 ≡ [])
        × (e.ferror st (e.fread st (suc n) w).0 ≡ true)
        × (e.errno (e.fread st (suc n) w).0 ≡ eintr)
        × P (e.fread st (suc n) w).0

  read_loop-endless :
      (st : ℕ) (P : e.World → Type 0)
      → Stuck st P
      → (fuel len : ℕ) (bytes : List ℕ) (last : ℤ) (w : e.World) → P w
      → read_loop e fuel st (suc len) bytes last w ≡ endless
  unfolding read_loop
  read_loop-endless st P stuck zero len bytes last w p = refl
  read_loop-endless st P stuck (suc fuel) len bytes last w p =
      let (got, flag, err, p') = stuck w len p in
      rw (got, flag, err)
        (read_loop-endless st P stuck fuel len bytes _ (e.fread st (suc len) w).0 p')

  -- ferror stays true behind an interrupt, and the code never calls clearerr: on an open file whose stream
  -- has ended in that state, `fileext_read_char` does not end, whatever the fuel.
  pub fileext_read_char-unending :
      (i st fuel : ℕ) (f : Fio) (s : System e) (P : e.World → Type 0)
      → slot s.files i ≡ some f
      → f.io ≡ some st
      → Stuck st P
      → P s.world
      → fileext_read_char e fuel (file (some i)) s ≡ unending
  unfolding fileext_read_char
  fileext_read_char-unending i st fuel f s P file_there is_open stuck p =
      rw (file_there, is_open, read_loop-endless st P stuck fuel 0 [] f.last_error s.world p) refl
