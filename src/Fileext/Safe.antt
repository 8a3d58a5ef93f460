-- ===== src/Fileext/Safe.antt =====
-- Any order of the primitives of dll_src/fileext/src/fileext.cpp, on the streams of its files.
use caffeine_hx.Common.{
  ℕ, ◌≡◌, refl, ap, Bool, List, [], ◌∷◌, ◌++◌, ◌⊎◌, inl, inr, Option, none, some,
}
use caffeine_hx.Fileext.{Stdio}
use caffeine_hx.Fileext.Prims.{
  Value, System, fileext_open, fileext_tmpfile_open, fileext_close, fileext_read, fileext_read_char,
  fileext_write, fileext_write_char,
}
use caffeine_hx.Fileext.Position.{
  fileext_flush, fileext_tell, fileext_seek, fileext_rewind, fileext_feof, fileext_contents,
  fileext_free_file,
}
use caffeine_hx.Fileext.Streams.{IsStdio, Change, IsHeld, Kept, Change-Kept}
use caffeine_hx.Fileext.Moves.{read-Changes, read_char-Changes, write-Changes, write_char-Changes}
use caffeine_hx.Fileext.Changes.{left, Changes}
use caffeine_hx.Fileext.Each.{
  open-Changes, tmpfile-Changes, close-Changes, free_file-Change, flush-Changes, tell-Changes,
  rewind-Changes, feof-Changes, seek-Changes, contents-Changes,
}

-- What a script or the collector does.
pub data Call : Type 0 where
  open_named : Value → Value → Call
  tmpfile_open : Call
  close_file : Value → Call
  read : Value → Value → Value → Value → Call
  read_char : Value → Call
  write : Value → Value → Value → Value → Call
  write_char : Value → Value → Call
  contents : Value → Call
  flush_file tell_file rewind feof : Value → Call
  seek_file : Value → Value → Value → Call
  finalize : ℕ → Call

module _ (e : Stdio) (malloc : ℕ → Bool) (fuel : ℕ) where
  unfoldable pub run_call : Call → System e → Option (System e)
  run_call (open_named name mode) s = left e (fileext_open e name mode s)
  run_call tmpfile_open s = left e (fileext_tmpfile_open e s)
  run_call (close_file v) s = left e (fileext_close e v s)
  run_call (read v b p l) s = left e (fileext_read e fuel v b p l s)
  run_call (read_char v) s = left e (fileext_read_char e fuel v s)
  run_call (write v b p l) s = left e (fileext_write e fuel v b p l s)
  run_call (write_char v c) s = left e (fileext_write_char e fuel v c s)
  run_call (contents name) s = left e (fileext_contents e malloc fuel name s)
  run_call (flush_file v) s = left e (fileext_flush e v s)
  run_call (tell_file v) s = left e (fileext_tell e v s)
  run_call (rewind v) s = left e (fileext_rewind e v s)
  run_call (feof v) s = left e (fileext_feof e v s)
  run_call (seek_file v off wh) s = left e (fileext_seek e v off wh s)
  run_call (finalize i) s = some (fileext_free_file e i s)

  abbrev pub on_left : (System e → Option (System e)) → Option (System e) → Option (System e)
  on_left rest none = none
  on_left rest (some s) = rest s

  unfoldable pub calls : List Call → System e → Option (System e)
  unfolding run_call
  calls [] s = some s
  calls (c ∷ cs) s = on_left (calls cs) (run_call c s)

module _ (e : Stdio) (std : IsStdio e) (malloc : ℕ → Bool) (fuel : ℕ) where
  run_call-Change : (c : Call) (s : System e) → Change e s (run_call e malloc fuel c s)
  unfolding run_call Changes
  run_call-Change (open_named name mode) s = open-Changes e std name mode s
  run_call-Change tmpfile_open s = tmpfile-Changes e std s
  run_call-Change (close_file v) s = close-Changes e std v s
  run_call-Change (read v b p l) s = read-Changes e std fuel v b p l s
  run_call-Change (read_char v) s = read_char-Changes e std fuel v s
  run_call-Change (write v b p l) s = write-Changes e std fuel v b p l s
  run_call-Change (write_char v c) s = write_char-Changes e std fuel v c s
  run_call-Change (contents name) s = contents-Changes e std malloc fuel name s
  run_call-Change (flush_file v) s = flush-Changes e std v s
  run_call-Change (tell_file v) s = tell-Changes e std v s
  run_call-Change (rewind v) s = rewind-Changes e std v s
  run_call-Change (feof v) s = feof-Changes e std v s
  run_call-Change (seek_file v off wh) s = seek-Changes e std v off wh s
  run_call-Change (finalize i) s = free_file-Change e std i s

  -- All calls are answered, and the files are held; or a first call has no answer, on held files.
  abbrev pub Answered : List Call → System e → Type 0
  Answered cs s =
      ((s' : System e) × ((calls e malloc fuel cs s ≡ some s') × IsHeld e s'))
      ⊎ ((before : List Call) × (c : Call) × (behind : List Call) × (s' : System e) × (cs
            ≡ before ++ c ∷ behind)
          × ((calls e malloc fuel before s ≡ some s')
              × (IsHeld e s' × (run_call e malloc fuel c s' ≡ none))))

  Kept-cases :
      (r : Option (System e))
      → Kept e r
      → ((s' : System e) × ((r ≡ some s') × IsHeld e s')) ⊎ (r ≡ none)
  Kept-cases none k = inr refl
  Kept-cases (some s') k = inl (s', (refl, k))

  Answered-next :
      (c : Call) (cs : List Call) (s s' : System e)
      → run_call e malloc fuel c s ≡ some s'
      → Answered cs s'
      → Answered (c ∷ cs) s
  unfolding calls
  Answered-next c cs s s' e0 (inl (s'', (p, h))) = inl (s'', (rw e0 p, h))
  Answered-next c cs s s' e0 (inr (before, c', behind, s'', q, (p, k))) =
      inr (c ∷ before, c', behind, s'', ap (λ x. c ∷ x) q, (rw e0 p, k))

  -- From files of which each open one has an open stream that no other file has, any sequence of opens,
  -- closes, reads, writes, moves, flushes and finalizations, on any arguments, is answered to its end and
  -- ends in such files; or there is a first call without an answer, on such files still: it overruns a
  -- string, uses a deleted file or a missing string, takes bytes that were never written, or is still in a
  -- loop when the fuel is spent. Calls on streams keep the streams open that they do not close, and an
  -- open gives a stream that was not open. The opens of stdin, stdout and stderr, whose streams two files
  -- can have, are not among the calls.
  pub calls-IsHeld : (cs : List Call) (s : System e) → IsHeld e s → Answered cs s
  unfolding calls
  calls-IsHeld [] s h = inl (s, (refl, h))
  calls-IsHeld (c ∷ cs) s h =
      elim (Kept-cases (run_call e malloc fuel c s) (Change-Kept e s _ (run_call-Change c s) h)) [
        | inl (s', (p, k)) ↦ Answered-next c cs s s' p (calls-IsHeld cs s' k)
        | inr p ↦ inr ([], c, cs, s, refl, (refl, (h, p)))
      ]
