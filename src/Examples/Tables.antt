-- ===== src/Examples/Tables.antt =====
-- The table of open files at concrete states.
use kaya_basic.Base.{
  true, ltb, ◌+◌, List, ◌∷◌, ◌≢◌, ◌≡◌, refl, arith, false, [], some, none, if◌then◌else◌, ◌==◌,
  codes, ok,
}
use kaya_basic.Cpp.Int.{pos}
use kaya_basic.Files.{
  State, file_open, file_close, close_one, free_from, free_file, file_get_object,
}
use kaya_basic.Files.Programs.{
  World, Event, open_next, open_at, close_at, AllLegal, start, run_one, session,
}
use kaya_basic.Files.Programs.Laws.{session-closed}
use kaya_basic.Objects.Counted.{times_in}
use kaya_basic.Files.Laws.{opened, one_closed, file_open-free_file}

-- Number 1 is open.
abbrev one_open : State
one_open = record { open_files = λ n. if n == 1 then some 8 else none; closed = []; next = 9 }

second : free_file one_open ≡ 2
unfolding free_file free_from
second = refl

given : free_file one_open ≢ 0
given = rw second (omega arith)

file_open-free_file_example :
    let n = free_file one_open in
    let s' = opened n one_open in
    let s'' = one_closed n 9 s' in
    (file_open (codes "a.txt") false (pos n) one_open ≡ (s', ok tt))
    × (file_get_object (pos n) s' ≡ ok (some 9))
    × (file_close (pos n) s' ≡ ok s'')
    × (s''.open_files 1 ≡ one_open.open_files 1)
file_open-free_file_example = file_open-free_file one_open (codes "a.txt") 1 given

-- Two files under numbers that `FreeFile` gives, one over the first, one that cannot be opened, and
-- the second closed by its number.
abbrev events : List Event
events =
    open_next (codes "a") false
    ∷ open_next (codes "b") false
    ∷ open_at 1 (codes "c") false
    ∷ open_next (codes "d") true
    ∷ close_at 2
    ∷ []

events-AllLegal : AllLegal events start
unfolding run_one file_open file_close close_one free_file free_from
events-AllLegal = (tt, (tt, (omega arith, (tt, ((omega arith, 1, refl), tt)))))

session-closed_example :
    (w' : World) × (session events ≡ ok w')
    × (times_in 2 w'.files.closed + times_in 2 w'.lost ≡ (if ltb 2 w'.files.next then 1 else 0))
session-closed_example = session-closed events 2 events-AllLegal
