-- ===== src/Files/Programs.antt =====
-- Programs that open and close files by their numbers.
pub mod Places
pub mod Laws
use kaya_basic.Base.{
  ℕ, zero, suc, ◌<◌, ◌≡◌, ◌+◌, Bool, Option, none, some, List, [], ◌∷◌, ltb, if◌then◌else◌, Bytes,
  Outcome, ok, throws, undefined, ◌>>=◌,
}
use kaya_basic.Cpp.Int.{pos}
use kaya_basic.Files.{
  State, Stream, max_open_files, file_open, file_close, file_get_object, free_file,
}

-- The files, and the streams that no number leads to any more and that were not closed.
pub record World : Type 0 where
  pub files : State
  pub lost : List Stream

-- `open_next` asks `FreeFile` for the number, `open_at` and `close_at` are given one. The Boolean
-- is whether the file cannot be opened.
pub data Event : Type 0 where
  open_next : Bytes → Bool → Event
  open_at : ℕ → Bytes → Bool → Event
  close_at : ℕ → Event
  close_every : Event

-- The stream that a number leads to before `FileOpen` writes another there.
abbrev pub lost_at : Option Stream → List Stream → List Stream
lost_at none lost = lost
lost_at (some f) lost = f ∷ lost

-- What `FileOpen` loses: the stream that was made, where it throws, and else the one of before.
-- What is thrown is caught.
abbrev pub after_open : ℕ → World → State × Outcome (Unit {0}) → Outcome World
after_open n w (s', ok u) = ok (record { files = s'; lost = lost_at (w.files.open_files n) w.lost })
after_open n w (s', throws e) = ok (record { files = s'; lost = w.files.next ∷ w.lost })
after_open n w (s', undefined) = undefined

unfoldable pub run_one : Event → World → Outcome World
run_one (open_next name fails) w =
    let n = free_file w.files in after_open n w (file_open name fails (pos n) w.files)
run_one (open_at n name fails) w = after_open n w (file_open name fails (pos n) w.files)
run_one (close_at n) w = do s' ← file_close (pos n) w.files; ok (record w { files = s' })
run_one close_every w = do s' ← file_close (pos 0) w.files; ok (record w { files = s' })

unfoldable pub run : List Event → World → Outcome World
unfolding run_one
run [] w = ok w
run (e ∷ es) w = do w' ← run_one e w; run es w'

-- A number that is given to `FileOpen` is one of the table, and one that is given to `FileClose` is
-- open.
abbrev pub Legal : Event → World → Type 0
Legal (open_at n name fails) w = n < max_open_files
Legal (close_at n) w = (n < max_open_files) × (f : Stream) × (w.files.open_files n ≡ some f)
Legal _ w = Unit {0}

abbrev pub AllLegal : List Event → World → Type 0
AllLegal [] w = Unit {0}
AllLegal (e ∷ es) w =
    Legal e w
    × elim (run_one e w) [ ok w' ↦ AllLegal es w' | throws t ↦ Unit {0} | undefined ↦ Unit {0} ]

-- Nothing was opened.
abbrev pub start : World
start = record { files = record { open_files = λ n. none; closed = []; next = 0 }; lost = [] }

-- A program that ends with `FileClose(0)`.
unfoldable pub session : List Event → Outcome World
unfolding run run_one
session es = do w ← run es start; run_one close_every w
