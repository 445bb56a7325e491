-- ===== src/Files.antt =====
-- The file numbers of lib/System.cpp: `FileOpen`, `FileClose`, `FileGetObject`, `FreeFile`, and
-- what `Eof` and `FileLen` ask a stream.
pub mod Laws
pub mod Programs
use kaya_basic.Base.{
  ℕ, zero, suc, ◌+◌, ◌-◌, Bool, true, false, Option, none, some, List, [], ◌∷◌, ◌++◌, ltb, ◌==◌,
  if◌then◌else◌, Bytes, codes, Outcome, ok, throws, undefined, text, literal, ◌>>=◌,
}
use kaya_basic.Cpp.Word.{to_int}
use kaya_basic.Cpp.Int.{ℤ, pos, negsuc, ltb_ℤ, eqb_ℤ}

abbrev pub max_open_files : ℕ
max_open_files = 512

-- A stream is known by the number that `new` gave it.
abbrev pub Stream : Type 0
Stream = ℕ

-- `OpenFiles`, the streams closed and deleted so far (the last first), and the next to be made.
pub record State : Type 0 where
  pub open_files : ℕ → Option Stream
  pub closed : List Stream
  pub next : Stream

abbrev pub update : (ℕ → Option Stream) → ℕ → Option Stream → ℕ → Option Stream
update table fn v k = if k == fn then v else table k

-- `fails` is whether the library could not open the file. What is thrown leaves the state as it
-- was, but for the stream that was made. Past the end of `OpenFiles` the write has no defined
-- result.
unfoldable pub file_open : Bytes → Bool → ℤ → State → State × Outcome (Unit {0})
file_open filename fails fn s =
    let made = record s { next = suc s.next } in
    if fails then (made, throws (text (codes "can not open the file:" ++ filename))) else elim fn [
      | pos n ↦
          if n == 0
          then (made, throws (literal (codes "invalid file no")))
          else if ltb n max_open_files
          then (record made { open_files = update s.open_files n (some s.next) }, ok tt)
          else (made, undefined)
      | negsuc n ↦ (made, throws (literal (codes "invalid file no")))
    ]

-- `FileClose` of one number: `f->close()` through a null pointer has no defined result.
unfoldable pub close_one : ℕ → State → Outcome State
close_one n s = elim (s.open_files n) [
  | none ↦ undefined
  | some f ↦ ok (record s { open_files = update s.open_files n none; closed = f ∷ s.closed })
]

-- The loop over the open numbers from `fn` on, for the rounds left.
unfoldable pub close_from : ℕ → ℕ → State → Outcome State
close_from zero fn s = ok s
close_from (suc k) fn s = elim (s.open_files fn) [
  | none ↦ close_from k (suc fn) s
  | some f ↦ close_one fn s >>= close_from k (suc fn)
]

unfoldable pub file_close : ℤ → State → Outcome State
unfolding close_one close_from
file_close (pos n) s =
    if n == 0
    then close_from (max_open_files - 1) 1 s
    else if ltb n max_open_files
    then close_one n s
    else undefined
file_close (negsuc n) s = undefined

unfoldable pub file_get_object : ℤ → State → Outcome (Option Stream)
file_get_object (pos n) s = if ltb n max_open_files then ok (s.open_files n) else undefined
file_get_object (negsuc n) s = undefined

-- The loop of `FreeFile` from `fn` on, for the rounds left.
unfoldable pub free_from : ℕ → ℕ → State → ℕ
free_from zero fn s = 0
free_from (suc k) fn s = elim (s.open_files fn) [ none ↦ fn | some f ↦ free_from k (suc fn) s ]

unfoldable pub free_file : State → ℕ
unfolding free_from
free_file s = free_from (max_open_files - 1) 1 s

-- What a stream knows of its file.
pub record Reading : Type 0 where
  pub at_end : Stream → Bool
  pub failed : Stream → Bool
  pub size : Stream → ℕ
  pub place : Stream → ℕ

unfoldable pub eof : ℤ → Reading → State → Outcome Bool
eof fn r s = do f ← file_get_object fn s; elim f [ none ↦ undefined | some p ↦ ok (r.at_end p) ]

-- `seekg` to the end, `tellg`, and `seekg` to the begin, which ends an `eof`. A stream that has
-- failed stays where it is, and `tellg` gives -1.
unfoldable pub file_len : ℤ → Reading → State → Outcome (ℤ × Reading)
file_len fn r s = do
  f ← file_get_object fn s
  elim f [
    | none ↦ undefined
    | some p ↦
        if r.failed p
        then ok (negsuc 0, r)
        else ok (
          to_int (r.size p),
          record r {
            at_end = λ q. if q == p then false else r.at_end q;
            place = λ q. if q == p then 0 else r.place q;
          },
        )
  ]
