-- ===== src/Files/Programs/Laws.antt =====
-- Programs that open and close files lose no stream but where `FileOpen` does.
use kaya_basic.Base.{
  ℕ, suc, ◌+◌, ◌-◌, ◌≤◌, ◌<◌, ◌≢◌, ◌≡◌, refl, sym, ap, ◌∙◌, arith, ℕ_discrete, Bool, true, false,
  Option, none, some, List, [], ◌∷◌, ltb, ◌==◌, if◌then◌else◌, Bytes, Outcome, ok,
}
use mathlib.Core.Option.{none-ne-some}
use kaya_basic.Cpp.Int.{pos}
use kaya_basic.Objects.Counted.{times_in}
use kaya_basic.Files.{State, Stream, max_open_files, file_open, close_one, file_close, free_file}
use kaya_basic.Files.Laws.{one_closed, opened, file_close-zero, free_file-free}
use kaya_basic.Files.Programs.{
  World, Event, open_next, open_at, close_at, Legal, AllLegal, close_every, lost_at, after_open,
  run_one, run, start, session,
}
use kaya_basic.Files.Programs.Places.{
  held, held-none, IsAccounted, one_closed-IsAccounted, close_from-IsAccounted, made-IsAccounted,
  opened-IsAccounted,
}

-- What the program does next has a defined result, and every stream stays accounted for.
abbrev pub Goes : Outcome World → Type 0
Goes o = (w' : World) × (o ≡ ok w') × IsAccounted w'.files w'.lost

after_open-Goes :
    (n : ℕ) (name : Bytes) (fails : Bool) (w : World)
    → n < max_open_files
    → IsAccounted w.files w.lost
    → Goes (after_open n w (file_open name fails (pos n) w.files))
unfolding file_open
after_open-Goes n name true w b h = (_, refl, made-IsAccounted w.files w.lost h)
after_open-Goes n name false w b h = elim (ℕ_discrete n 0) [
  | yes e ↦
      let zero_number : (n == 0) ≡ true = ground arith in
      (
        record { files = record w.files { next = suc w.files.next }; lost = w.files.next ∷ w.lost },
        rw zero_number refl,
        made-IsAccounted w.files w.lost h,
      )
  | no ne ↦
      let not_zero : (n == 0) ≡ false = ground arith in
      let below : ltb n max_open_files ≡ true = ground arith in
      (
        record { files = opened n w.files; lost = lost_at (w.files.open_files n) w.lost },
        rw (not_zero, below) refl,
        opened-IsAccounted n w.files w.lost ne b h,
      )
]

file_close-open :
    (n : ℕ) (f : Stream) (s : State)
    → n ≢ 0
    → ltb n max_open_files ≡ true
    → s.open_files n ≡ some f
    → file_close (pos n) s ≡ ok (one_closed n f s)
unfolding file_close close_one
file_close-open n f s ne inside e =
    let not_zero : (n == 0) ≡ false = ground arith in rw (not_zero, inside, close_one, e) refl

close_at-Goes :
    (n : ℕ) (f : Stream) (w : World)
    → n < max_open_files
    → w.files.open_files n ≡ some f
    → IsAccounted w.files w.lost
    → Goes (run_one (close_at n) w)
unfolding run_one
close_at-Goes n f w lt e h = elim (ℕ_discrete n 0) [
  | yes first ↦ absurd (none-ne-some f (sym h.none_at_zero ∙ ap w.files.open_files (sym first) ∙ e))
  | no ne ↦
      let inside : ltb n max_open_files ≡ true = ground arith in
      (
        record w { files = one_closed n f w.files },
        rw (file_close-open n f w.files ne inside e) refl,
        one_closed-IsAccounted n f w.files w.lost (ground arith) e h,
      )
]

free_below : (s : State) → free_file s < max_open_files
free_below s = elim (ℕ_discrete (free_file s) 0) [
  | yes e ↦ omega (arith, e)
  | no ne ↦ (free_file-free s ne).2
]

run_one-Goes : (e : Event) (w : World) → Legal e w → IsAccounted w.files w.lost → Goes (run_one e w)
run_one-Goes (open_next name fails) w l h =
    unfold run_one in after_open-Goes (free_file w.files) name fails w (free_below w.files) h
run_one-Goes (open_at n name fails) w l h = unfold run_one in after_open-Goes n name fails w l h
run_one-Goes (close_at n) w (lt, f, e) h = close_at-Goes n f w lt e h
run_one-Goes close_every w l h =
    let (s', e, h', n) =
      close_from-IsAccounted (max_open_files - 1) 1 w.files w.lost (omega arith) h in
    (record w { files = s' }, unfold run_one file_close in rw e refl, h')

-- Where every stream is accounted for, a program whose numbers are legal runs to its end, whatever
-- the files are, and every stream is accounted for again: no stream is closed twice, none that was
-- closed is reached by a number, and no two numbers share one.
pub run-Goes :
    (es : List Event) (w : World) → AllLegal es w → IsAccounted w.files w.lost → Goes (run es w)
unfolding run
run-Goes [] w l h = (w, refl, h)
run-Goes (e ∷ es) w (l, ls) h =
    let (w1, e1, h1) = run_one-Goes e w l h in
    let (w2, e2, h2) = run-Goes es w1 (rw e1 at ls) h1 in (w2, rw (e1, e2) refl, h2)

start-IsAccounted : IsAccounted start.files start.lost
start-IsAccounted = record { none_at_zero = refl; places = λ f. nothing_held f }
  where
    nothing_held :
        (f : Stream) → held max_open_files 0 f (λ n. none) + 0 + 0 ≡ (if ltb f 0 then 1 else 0)
    nothing_held f =
        let empty = held-none max_open_files 0 f (λ n. none) (λ i le lt. refl) in
        ground (arith, empty)

closed_all :
    (f : Stream) (w : World)
    → IsAccounted w.files w.lost
    → ((i : ℕ) → 0 ≤ i → i < 0 + max_open_files → w.files.open_files i ≡ none)
    → times_in f w.files.closed + times_in f w.lost ≡ (if ltb f w.files.next then 1 else 0)
closed_all f w h none_open =
    let empty = held-none max_open_files 0 f w.files.open_files none_open in
    let place = h.places f in omega (arith, empty, place)

abbrev found_at : Outcome State → ℕ → Option Stream
found_at (ok s) i = s.open_files i
found_at _ i = none

none_left :
    (w : World) (s' : State) (i : ℕ)
    → file_close (pos 0) w.files ≡ ok s'
    → s'.open_files 0 ≡ none
    → i < max_open_files
    → s'.open_files i ≡ none
none_left w s' i e at_zero b =
    let (s1, e1, h) = file_close-zero w.files i in
    let same : s1.open_files i ≡ s'.open_files i = ap (λ o. found_at o i) (sym e1 ∙ e) in
    elim (ℕ_discrete i 0) [
      | yes first ↦ ap s'.open_files first ∙ at_zero
      | no later ↦ ground (arith, h, same)
    ]

-- A program that begins without files and ends with `FileClose(0)`, in which every number that is
-- given to `FileOpen` is below 512 and every one that is given to `FileClose` is open then, runs to
-- its end with a defined result, whichever files can be opened. Every stream that it made is then
-- closed, once, but for those that are lost: where `FileOpen` threw, and where it wrote over a
-- number in use.
pub session-closed :
    (es : List Event) (f : Stream)
    → AllLegal es start
    → (w' : World) × (session es ≡ ok w')
      × (times_in f w'.files.closed + times_in f w'.lost ≡ (if ltb f w'.files.next then 1 else 0))
unfolding session
session-closed es f l =
    let (w, e, h) = run-Goes es start l start-IsAccounted in
    let (s', e', h', n) =
      close_from-IsAccounted (max_open_files - 1) 1 w.files w.lost (omega arith) h in
    let closed : file_close (pos 0) w.files ≡ ok s' = unfold file_close in e' in
    let w' = record w { files = s' } in
    (
      w',
      rw e (unfold run_one in rw closed refl),
      closed_all f w' h' (λ i le lt. none_left w s' i closed h'.none_at_zero lt),
    )
