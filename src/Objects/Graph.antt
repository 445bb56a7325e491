-- ===== src/Objects/Graph.antt =====
-- Objects that hold references to others: `release` of lib/core/core.h deletes an object, and the
-- destructor of the object releases what its fields refer to, and so on.
pub mod Counts
pub mod Cascade
pub mod Programs
pub mod Edits
pub mod Writes
pub mod Makes
pub mod Ranked
use kaya_basic.Base.{
  ℕ, zero, suc, ◌+◌, Option, none, some, List, [], ◌∷◌, ◌++◌, length, get_elem?, set, if◌then◌else◌,
  Outcome, ok, throws, undefined,
}
use kaya_basic.Cpp.Int.{ℤ, pos, ◌+ℤ◌, ◌-ℤ◌, eqb_ℤ}
use kaya_basic.Objects.{Ptr}

-- An object: its `__refcnt`, and the fields that are references, in the order in which the
-- destructor releases them.
pub record Cell : Type 0 where
  pub count : ℤ
  pub fields : List (Option Ptr)

-- The objects in the order in which they were made, `none` for one that was deleted; a pointer is
-- the position.
abbrev pub Graph : Type 0
Graph = List (Option Cell)

-- `addref`
abbrev pub added : Ptr → Graph → Option (Option Cell) → Outcome Graph
added p g (some (some c)) = ok (set g p (some (record c { count = c.count +ℤ pos 1 })))
added p g _ = undefined

unfoldable pub add : Option Ptr → Graph → Outcome Graph
add none g = ok g
add (some p) g = added p g (get_elem? g p)

-- `release` up to the destructor, with the count that it leaves, and the fields that the destructor
-- is to release.
abbrev pub lowered : Ptr → Graph → Cell → ℤ → Graph × List (Option Ptr)
lowered p g c n =
    if eqb_ℤ n (pos 0)
    then (set g p none, c.fields)
    else (set g p (some (record c { count = n })), [])

abbrev pub dropped : Ptr → Graph → Option (Option Cell) → Outcome (Graph × List (Option Ptr))
dropped p g (some (some c)) = ok (lowered p g c (c.count -ℤ pos 1))
dropped p g _ = undefined

unfoldable pub release_one : Option Ptr → Graph → Outcome (Graph × List (Option Ptr))
release_one none g = ok (g, [])
release_one (some p) g = dropped p g (get_elem? g p)

-- What follows a step that has a result.
abbrev pub go_on :
    (List (Option Ptr) → Graph → Option (Outcome Graph))
    → Outcome (Graph × List (Option Ptr))
    → Option (Outcome Graph)
go_on k (ok (g, fields)) = k fields g
go_on k (throws e) = some (throws e)
go_on k undefined = some undefined

-- The references that are still to be released, on fuel; `none` if that is not enough.
unfoldable pub release_all : ℕ → List (Option Ptr) → Graph → Option (Outcome Graph)
release_all zero [] g = some (ok g)
release_all zero (r ∷ rs) g = none
release_all (suc fuel) [] g = some (ok g)
release_all (suc fuel) (r ∷ rs) g =
    go_on (λ fields g'. release_all fuel (fields ++ rs) g') (release_one r g)

-- How many fields the objects have.
unfoldable pub total : Graph → ℕ
total [] = 0
total (none ∷ g) = total g
total (some c ∷ g) = length c.fields + total g

-- `release` of one reference.
abbrev pub finished : Option (Outcome Graph) → Outcome Graph
finished none = undefined
finished (some o) = o

unfoldable pub release : Option Ptr → Graph → Outcome Graph
unfolding release_all total
release r g = finished (release_all (suc (total g)) (r ∷ []) g)
