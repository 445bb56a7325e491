-- ===== src/Objects/Terminating.antt =====
-- `release` with a `Terminate` that the program has written: it runs between the last release of
-- the object and its deletion.
pub mod Laws
use kaya_basic.Base.{
  ℕ, zero, suc, Option, none, some, List, [], ◌∷◌, if◌then◌else◌, Outcome, ok, throws, undefined,
}
use kaya_basic.Cpp.Int.{ℤ, pos, ◌-ℤ◌, eqb_ℤ}
use kaya_basic.Objects.{Ptr, Heap, put_count, addref}

-- What `Terminate` does with references: `pass q` hands the object to a function that takes a `ref`
-- by value, so that a copy of the reference is made and destroyed, and `keep q` stores a copy.
pub data Act : Type 0 where
  pass keep : Ptr → Act

-- Releases on fuel: `none` is one that still runs.
abbrev pub Releases : Type 0
Releases = Option (Outcome Heap)

abbrev pub then_do : Releases → (Heap → Releases) → Releases
then_do none k = none
then_do (some (ok h)) k = k h
then_do (some (throws e)) k = some (throws e)
then_do (some undefined) k = some undefined

-- The body of `Terminate`, by what a release does.
unfoldable pub run_acts : (Option Ptr → Heap → Releases) → List Act → Heap → Releases
run_acts release [] h = some (ok h)
run_acts release (pass q ∷ acts) h =
    then_do (some (addref (some q) h))
      (λ h1. then_do (release (some q) h1) (λ h2. run_acts release acts h2))
run_acts release (keep q ∷ acts) h =
    then_do (some (addref (some q) h)) (λ h1. run_acts release acts h1)

abbrev pub counting : Ptr → ℤ → Heap → Heap
counting p n h = record h { refcnt = put_count h.refcnt p (some n) }

-- `delete ptr`
abbrev pub gone : Ptr → Heap → Heap
gone p h = record h { refcnt = put_count h.refcnt p none; deleted = p ∷ h.deleted }

-- `release`, where `acts p` is what `Terminate` of the object `p` does: the count is 0 while it
-- runs, and whatever it is then, the object is deleted.
unfoldable pub release_with : (Ptr → List Act) → ℕ → Option Ptr → Heap → Releases
unfolding run_acts
release_with acts zero r h = none
release_with acts (suc fuel) none h = some (ok h)
release_with acts (suc fuel) (some p) h = elim (h.refcnt p) [
  | none ↦ some undefined
  | some n ↦
      if eqb_ℤ (n -ℤ pos 1) (pos 0)
      then then_do (run_acts (release_with acts fuel) (acts p) (counting p (n -ℤ pos 1) h))
          (λ h'. some (ok (gone p h')))
      else some (ok (counting p (n -ℤ pos 1) h))
]
