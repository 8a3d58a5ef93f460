-- ===== src/Fileext/Changes.antt =====
-- How the answers of dll_src/fileext/src/fileext.cpp change the streams of its files.
use caffeine_hx.Common.{
  ℕ, ◌≡◌, ◌≢◌, refl, ap, sym, subst, ◌∙◌, Bool, true, false, inl, inr, List, [], ◌∷◌, ◌++◌, Option,
  none, some, length, set, if◌then◌else◌,
}
use caffeine_hx.Common.Int.{ℤ}
use caffeine_hx.Common.Slots.{slot, slot-lt, slot-set_within, slot-set_other}
use caffeine_hx.Fileext.{Stdio, Fio}
use caffeine_hx.Fileext.Streams.{Grows, Change, same, stop, more, less, io_of, eq_cases}
use caffeine_hx.Fileext.Prims.{
  System, Value, null, int, bool, string, file, other_value, Answer, result, thrown, neko_error,
  overrun, undefined, unending, Act, on_file, with_file, on_string, with_bytes, with_string,
  with_int, Message,
}
use caffeine_hx.Fileext.Prims.{made, new_fio}
use caffeine_hx.Fileext.{opened}
use caffeine_hx.Fileext.Streams.{Opens}
use caffeine_hx.Common.Slots.{slot-append_last, slot-append_other}

module _ (e : Stdio) where
  -- What an answer leaves; a script may catch an exception. `none` where memory is misused, or a loop
  -- goes on.
  abbrev pub left : Answer (System e) → Option (System e)
  left (result v s) = some s
  left (thrown m s) = some s
  left (neko_error s) = some s
  left overrun = none
  left undefined = none
  left unending = none

  unfoldable pub Changes : System e → Answer (System e) → Type 0
  Changes s r = Change e s (left r)

  pub Grows-refl : (s : System e) → Grows e s.world s.world
  Grows-refl s = λ t a. a

  pub unchanged : (s : System e) → Change e s (some s)
  unchanged s = same s (Grows-refl s) (λ i. refl)

  pub elsewhere :
      (s : System e) (w : e.World) (x : List (List ℕ))
      → Grows e s.world w
      → Change e s (some (record { world = w; files = s.files; strings = x }))
  elsewhere s w x g = same _ g (λ i. refl)

  -- A file that keeps its stream, or has none and gets none.
  pub kept :
      (s : System e) (i : ℕ) (f : Fio) (y : Option Fio) (w : e.World) (x : List (List ℕ))
      → slot s.files i ≡ some f
      → io_of e y ≡ f.io
      → Grows e s.world w
      → Change e s (some (record { world = w; files = set s.files i y; strings = x }))
  kept s i f y w x h p g = same _ g (λ j. elim (eq_cases e i j) [
    | inl q ↦
        subst (λ j. io_of e (slot (set s.files i y) j) ≡ io_of e (slot s.files j)) q
          (ap (io_of e) (slot-set_within s.files i y (slot-lt s.files i h))
            ∙ p
            ∙ sym (ap (io_of e) h))
    | inr q ↦ ap (io_of e) (slot-set_other s.files i j y q)
  ])

  pub null-Changes : (s : System e) → Changes s (result null s)
  unfolding Changes
  null-Changes s = unchanged s

  pub thrown-Changes :
      (s : System e) (m : Message) (w : e.World)
      → Grows e s.world w
      → Changes s (thrown m (record s { world = w }))
  unfolding Changes
  thrown-Changes s m w g = elsewhere s w s.strings g

  pub overrun-Changes : (s : System e) → Changes s overrun
  unfolding Changes
  overrun-Changes s = stop

  pub string-Changes :
      (s : System e) (w : e.World) (bytes : List ℕ)
      → Grows e s.world w
      → Changes s (
          result
            (string (length s.strings))
            (record s { world = w; strings = s.strings ++ bytes ∷ [] }))
  unfolding Changes
  string-Changes s w bytes g = elsewhere s w _ g

  pub undefined-Changes : (s : System e) → Changes s undefined
  unfolding Changes
  undefined-Changes s = stop

  pub unending-Changes : (s : System e) → Changes s unending
  unfolding Changes
  unending-Changes s = stop

  pub with_file-Changes :
      (use_file : ℕ → Fio → Act e) (v : Value) (s : System e)
      → ((i : ℕ) (f : Fio) → slot s.files i ≡ some f → Changes s (use_file i f s))
      → Changes s (with_file e use_file v s)
  unfolding Changes
  with_file-Changes use_file (file none) s each = unchanged s
  with_file-Changes use_file (file (some i)) s each = go (slot s.files i) refl
    where
      go : (x : Option Fio) → slot s.files i ≡ x → Changes s (on_file e use_file i s x)
      go none h = stop
      go (some f) h = each i f h
  with_file-Changes use_file null s each = unchanged s
  with_file-Changes use_file (int n) s each = unchanged s
  with_file-Changes use_file (bool n) s each = unchanged s
  with_file-Changes use_file (string n) s each = unchanged s
  with_file-Changes use_file other_value s each = unchanged s

  pub on_string-Changes :
      (use_string : ℕ → List ℕ → Act e) (j : ℕ) (s : System e) (x : Option (List ℕ))
      → ((j : ℕ) (b : List ℕ) → Changes s (use_string j b s))
      → Changes s (on_string e use_string j s x)
  unfolding Changes
  on_string-Changes use_string j s none each = stop
  on_string-Changes use_string j s (some b) each = each j b

  pub with_bytes-Changes :
      (use_string : ℕ → List ℕ → Act e) (v : Value) (s : System e)
      → ((j : ℕ) (b : List ℕ) → Changes s (use_string j b s))
      → Changes s (with_bytes e use_string v s)
  unfolding Changes
  with_bytes-Changes use_string (string j) s each = on_string-Changes use_string j s _ each
  with_bytes-Changes use_string null s each = unchanged s
  with_bytes-Changes use_string (int n) s each = unchanged s
  with_bytes-Changes use_string (bool n) s each = unchanged s
  with_bytes-Changes use_string (file n) s each = unchanged s
  with_bytes-Changes use_string other_value s each = unchanged s

  pub with_string-Changes :
      (use_string : List ℕ → Act e) (v : Value) (s : System e)
      → ((b : List ℕ) → Changes s (use_string b s))
      → Changes s (with_string e use_string v s)
  unfolding Changes
  with_string-Changes use_string (string j) s each =
      on_string-Changes (λ i b. use_string b) j s _ (λ j b. each b)
  with_string-Changes use_string null s each = unchanged s
  with_string-Changes use_string (int n) s each = unchanged s
  with_string-Changes use_string (bool n) s each = unchanged s
  with_string-Changes use_string (file n) s each = unchanged s
  with_string-Changes use_string other_value s each = unchanged s

  pub with_int-Changes :
      (use_int : ℤ → Act e) (v : Value) (s : System e)
      → ((n : ℤ) → Changes s (use_int n s))
      → Changes s (with_int e use_int v s)
  unfolding Changes
  with_int-Changes use_int (int n) s each = each n
  with_int-Changes use_int null s each = unchanged s
  with_int-Changes use_int (bool n) s each = unchanged s
  with_int-Changes use_int (string n) s each = unchanged s
  with_int-Changes use_int (file n) s each = unchanged s
  with_int-Changes use_int other_value s each = unchanged s

  pub if-Changes :
      (s : System e) (c : Bool) (a b : Answer (System e))
      → Changes s a
      → Changes s b
      → Changes s (if c then a else b)
  unfolding Changes
  if-Changes s true a b h k = h
  if-Changes s false a b h k = k

  -- A file that loses its stream, and may be deleted.
  pub without_stream :
      (s : System e) (i st : ℕ) (f : Fio) (y : Option Fio) (w : e.World)
      → slot s.files i ≡ some f
      → f.io ≡ some st
      → io_of e y ≡ none
      → ((t : ℕ) → t ≢ st → e.is_open t s.world ≡ true → e.is_open t w ≡ true)
      → Change e s (some (record { world = w; files = set s.files i y; strings = s.strings }))
  without_stream s i st f y w h p q g =
      less _ i st (ap (io_of e) h ∙ p) g
        (ap (io_of e) (slot-set_within s.files i y (slot-lt s.files i h)) ∙ q)
        (λ j ne. ap (io_of e) (slot-set_other s.files i j y (λ p. ne (sym p))))

  -- A file more, with the stream that was opened, or none.
  pub made-Changes :
      (m : Message) (s : System e) (r : e.World × Option ℕ)
      → Opens e s.world r
      → Changes s (made e m s (opened e (new_fio e) r))
  unfolding Changes
  made-Changes m s (w, none) g = elsewhere s w s.strings g
  made-Changes m s (w, some st) (fresh, is_new, g) =
      more _ (length s.files) st fresh is_new g
        (ap (io_of e) (slot-append_last s.files _ (length s.files) refl))
        (λ i ne. ap (io_of e) (slot-append_other s.files _ i ne))
