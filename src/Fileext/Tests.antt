-- ===== src/Fileext/Tests.antt =====
-- Runs of the primitives of dll_src/fileext/src/fileext.cpp on a small system.
use caffeine_hx.Common.{
  ℕ, zero, suc, ◌-◌, ◌^◌, ◌≡◌, refl, sym, subst, ◌∙◌, Bool, true, false, inl, List, [], ◌∷◌, ◌++◌,
  Option, none, some, length, set, get_or, get_or-set_ne, arith,
}
use caffeine_hx.Common.Int.{ℤ, pos}
use caffeine_hx.Common.Slots.{slot}
use caffeine_hx.Fileext.{Stdio, Fio}
use caffeine_hx.Fileext.Prims.{
  int, bool, string, file, System, result, overrun, unending, put, stored, fileext_read,
  fileext_write, fileext_read_char, fileext_tmpfile_open, fileext_write_char, fileext_close,
}
use caffeine_hx.Fileext.Position.{fileext_free_file, fileext_stdio}
use caffeine_hx.Fileext.Streams.{IsStdio, IsHeld, Grows, stream}
use caffeine_hx.Fileext.Safe.{
  Call, tmpfile_open, close_file, write_char, read_char, finalize, run_call, calls, Answered,
  calls-IsHeld,
}
use caffeine_hx.Fileext.Loop.{Fed, delivers, interrupted, ended}
use caffeine_hx.Fileext.Written.{Takes, takes, refuses}
use caffeine_hx.Fileext.Range.{
  fileext_read-delivers, fileext_read-overrun, fileext_write-writes, fileext_read_char-unending,
  Stuck,
}

-- The streams that are open, what may be read and was written, the signals to come, and the flag of ferror.
record Disk : Type 0 where
  open_streams : List Bool
  unread : List ℕ
  written : List ℕ
  signals : ℕ
  failed : Bool

abbrev disk_read : Disk → ℕ → List ℕ → Disk × List ℕ
disk_read d (suc k) left = (record d { signals = k; failed = true }, [])
disk_read d zero [] = (d, [])
disk_read d zero (b ∷ bs) = (record d { unread = bs }, b ∷ [])

abbrev disk_write : Disk → ℕ → List ℕ → Disk × ℕ
disk_write d (suc k) bs = (record d { signals = k; failed = true }, 0)
disk_write d zero [] = (d, 0)
disk_write d zero (b ∷ bs) = (record d { written = d.written ++ b ∷ [] }, 1)

abbrev disk_open : Disk → Disk × Option ℕ
disk_open d =
    (record d { open_streams = d.open_streams ++ true ∷ [] }, some (length d.open_streams))

-- One byte at a time is read or written, behind the signals.
abbrev disk : Stdio
disk = record {
  World = Disk;
  is_open = λ t d. get_or d.open_streams t false;
  ferror = λ t d. d.failed;
  feof = λ t d. false;
  errno = λ d. 4;
  fopen = λ n m d. disk_open d;
  tmpfile = disk_open;
  fclose = λ t d. record d { open_streams = set d.open_streams t false };
  fread = λ t n d. disk_read d d.signals d.unread;
  fwrite = λ t bs d. disk_write d d.signals bs;
  fflush = λ t d. (d, true);
  fseek = λ t a b d. (d, true);
  ftell = λ t d. (d, some 0);
}

get_or-append_true :
    (xs : List Bool) (t : ℕ) → get_or xs t false ≡ true → get_or (xs ++ true ∷ []) t false ≡ true
get_or-append_true [] t h = cc
get_or-append_true (x ∷ xs) zero h = h
get_or-append_true (x ∷ xs) (suc t) h = get_or-append_true xs t h

get_or-length : (xs : List Bool) → get_or xs (length xs) false ≡ false
get_or-length [] = refl
get_or-length (x ∷ xs) = get_or-length xs

get_or-length_append : (xs : List Bool) → get_or (xs ++ true ∷ []) (length xs) false ≡ true
get_or-length_append [] = refl
get_or-length_append (x ∷ xs) = get_or-length_append xs

disk_read-Grows : (d : Disk) (k : ℕ) (left : List ℕ) → Grows disk d (disk_read d k left).0
disk_read-Grows d (suc k) left = λ t a. a
disk_read-Grows d zero [] = λ t a. a
disk_read-Grows d zero (b ∷ bs) = λ t a. a

disk_write-Grows : (d : Disk) (k : ℕ) (bs : List ℕ) → Grows disk d (disk_write d k bs).0
disk_write-Grows d (suc k) bs = λ t a. a
disk_write-Grows d zero [] = λ t a. a
disk_write-Grows d zero (b ∷ bs) = λ t a. a

disk-IsStdio : IsStdio disk
disk-IsStdio = record {
  fopen_opens = λ n m d. (
    get_or-length d.open_streams,
    get_or-length_append d.open_streams,
    λ t a. get_or-append_true d.open_streams t a,
  );
  tmpfile_opens = λ d. (
    get_or-length d.open_streams,
    get_or-length_append d.open_streams,
    λ t a. get_or-append_true d.open_streams t a,
  );
  fclose_closes = λ s t d ne a. get_or-set_ne d.open_streams s t false false (λ p. ne (sym p)) ∙ a;
  fread_grows = λ s n d. disk_read-Grows d d.signals d.unread;
  fwrite_grows = λ s b d. disk_write-Grows d d.signals b;
  fflush_grows = λ s d t a. a;
  fseek_grows = λ s a b d t h. h;
  ftell_grows = λ s d t a. a;
}

disk_read-Fed : (n : ℕ) (d : Disk) → Fed disk 0 (λ d. d.unread) (λ d. d.signals) n d
disk_read-Fed n d = go d.open_streams d.unread d.written d.signals d.failed
  where
    go :
        (o : List Bool) (u w : List ℕ) (k : ℕ) (f : Bool)
        → Fed disk 0
            (λ d. d.unread)
            (λ d. d.signals)
            n
            (record { open_streams = o; unread = u; written = w; signals = k; failed = f })
    go o u w (suc k) f = interrupted refl refl refl refl (omega arith)
    go o [] w zero f = ended refl refl refl refl
    go o (b ∷ bs) w zero f = delivers b [] refl (omega arith) refl (omega arith) refl

disk_write-Takes :
    (b : ℕ) (bs : List ℕ) (d : Disk) → Takes disk 0 (λ d. d.written) (λ d. d.signals) b bs d
disk_write-Takes b bs d = go d.open_streams d.unread d.written d.signals d.failed
  where
    go :
        (o : List Bool) (u w : List ℕ) (k : ℕ) (f : Bool)
        → Takes disk 0
            (λ d. d.written)
            (λ d. d.signals)
            b
            bs
            (record { open_streams = o; unread = u; written = w; signals = k; failed = f })
    go o u w (suc k) f = refuses refl refl refl refl (omega arith)
    go o u w zero f = takes 0 refl (omega arith) refl (omega arith)

-- A file of stream 0, the string "abcd", three bytes to be read, and two signals.
abbrev first_file : Fio
first_file = record { io = some 0; last_error = pos 0 }

abbrev letters : List ℕ
letters = 97 ∷ 98 ∷ 99 ∷ 100 ∷ []

abbrev busy_disk : Disk
busy_disk = record {
  open_streams = true ∷ [];
  unread = 5 ∷ 6 ∷ 7 ∷ [];
  written = [];
  signals = 2;
  failed = false;
}

abbrev one_file : System disk
one_file = record { world = busy_disk; files = some first_file ∷ []; strings = letters ∷ [] }

read_two :
    fileext_read disk 9 (file (some 0)) (string 0) (int (pos 1)) (int (pos 2)) one_file
    ≡ result (int (pos 2)) (record {
      world = record {
        open_streams = true ∷ [];
        unread = 7 ∷ [];
        written = [];
        signals = 0;
        failed = true;
      };
      files = some (record { io = some 0; last_error = pos 4 }) ∷ [];
      strings = (97 ∷ 5 ∷ 6 ∷ 100 ∷ []) ∷ [];
    })
unfolding fileext_read slot
read_two = refl

-- Past the end of the file, behind a signal
read_four_unending :
    fileext_read disk 40 (file (some 0)) (string 0) (int (pos 0)) (int (pos 4)) one_file ≡ unending
unfolding fileext_read slot
read_four_unending = refl

one_file-live : (i st : ℕ) → stream disk one_file i ≡ some st → get_or (true ∷ []) st false ≡ true
unfolding slot
one_file-live zero st h =
    let same : 0 ≡ st = cc in subst (λ t. get_or (true ∷ []) t false ≡ true) same refl
one_file-live (suc i) st h = cc

one_file-single :
    (i j st : ℕ) → stream disk one_file i ≡ some st → stream disk one_file j ≡ some st → i ≡ j
unfolding slot
one_file-single zero zero st h k = refl
one_file-single zero (suc j) st h k = cc
one_file-single (suc i) j st h k = cc

one_file-IsHeld : IsHeld disk one_file
one_file-IsHeld = record { live = one_file-live; single = one_file-single }

-- A temporary file, a byte written to it behind the signals, and both files given up.
abbrev script : List Call
script =
    tmpfile_open
    ∷ write_char (file (some 1)) (int (pos 65))
    ∷ close_file (file (some 1))
    ∷ read_char (file (some 0))
    ∷ finalize 0
    ∷ []

abbrev closed_files : System disk
closed_files = record {
  world = record {
    open_streams = false ∷ false ∷ [];
    unread = 6 ∷ 7 ∷ [];
    written = 65 ∷ [];
    signals = 0;
    failed = true;
  };
  files = none ∷ some (record { io = none; last_error = pos 4 }) ∷ [];
  strings = letters ∷ [];
}

script_run : calls disk (λ n. true) 5 script one_file ≡ some closed_files
unfolding calls run_call slot fileext_tmpfile_open fileext_write_char fileext_close
    fileext_read_char fileext_free_file
script_run = refl

calls-IsHeld_example : Answered disk disk-IsStdio (λ n. true) 5 script one_file
calls-IsHeld_example = calls-IsHeld disk disk-IsStdio (λ n. true) 5 script one_file one_file-IsHeld

file_zero : slot one_file.files 0 ≡ some first_file
unfolding slot
file_zero = refl

fileext_read-delivers_example :
    (last : ℤ) × ((w : Disk) × (fileext_read disk 4
          (file (some 0))
          (string 0)
          (int (pos 1))
          (int (pos 2))
          one_file
        ≡ result (int (pos 2)) (
            put disk 0
              (record first_file { last_error = last })
              w
              (stored disk 0 1 letters (5 ∷ 6 ∷ []) one_file)))
      × (w.unread ≡ 7 ∷ []))
fileext_read-delivers_example =
    fileext_read-delivers disk 0 0 0 first_file letters one_file file_zero refl refl (λ d. d.unread)
      (λ d. d.signals) 4 1 2 disk_read-Fed (omega arith) (omega arith) (inl (omega arith))
      (omega arith)

fileext_read-overrun_example :
    fileext_read disk 4 (file (some 0)) (string 0) (int (pos 1)) (int (pos (2 ^ 31 - 1))) one_file
    ≡ overrun
fileext_read-overrun_example =
    fileext_read-overrun disk 0 0 0 first_file letters one_file file_zero refl refl 4 1 (2 ^ 31 - 1)
      (omega arith) (omega arith) (omega arith)

fileext_write-writes_example :
    (last : ℤ) × ((w : Disk) × (fileext_write disk 5
          (file (some 0))
          (string 0)
          (int (pos 1))
          (int (pos 3))
          one_file
        ≡ result (int (pos 3)) (put disk 0 (record first_file { last_error = last }) w one_file))
      × (w.written ≡ 98 ∷ 99 ∷ 100 ∷ []))
fileext_write-writes_example =
    fileext_write-writes disk 0 0 0 first_file letters one_file file_zero refl refl (λ d. d.written)
      (λ d. d.signals) 5 1 3 disk_write-Takes (omega arith) (omega arith) (omega arith)

-- Nothing is left behind a signal.
abbrev Ended : Disk → Type 0
Ended d = (d.unread ≡ []) × (d.signals ≡ 0) × (d.failed ≡ true)

disk-Stuck : Stuck disk 0 Ended
disk-Stuck d n (empty, quiet, flag) = rw (empty, quiet) (refl, flag, refl, (refl, refl, flag))

abbrev read_out : System disk
read_out = record {
  world = record {
    open_streams = true ∷ [];
    unread = [];
    written = [];
    signals = 0;
    failed = true;
  };
  files = some first_file ∷ [];
  strings = [];
}

file_read_out : slot read_out.files 0 ≡ some first_file
unfolding slot
file_read_out = refl

fileext_read_char-unending_example : fileext_read_char disk 100 (file (some 0)) read_out ≡ unending
fileext_read_char-unending_example =
    fileext_read_char-unending disk 0 0 100 first_file read_out Ended file_read_out refl disk-Stuck
      (refl, refl, refl)

-- Two values of one stream of the process: behind a close of the one, the other has a closed stream.
abbrev shared_files : System disk
shared_files = record {
  world = record busy_disk { open_streams = false ∷ [] };
  files = some first_file ∷ some (record { io = none; last_error = pos 0 }) ∷ [];
  strings = letters ∷ [];
}

close_shared :
    (fileext_stdio disk 0 one_file
      ≡ result (file (some 1)) (record one_file { files = some first_file ∷ some first_file ∷ [] }))
    × (fileext_close disk
          (file (some 1))
          (record one_file { files = some first_file ∷ some first_file ∷ [] })
        ≡ result (bool true) shared_files)
unfolding fileext_stdio fileext_close slot
close_shared = (refl, refl)
