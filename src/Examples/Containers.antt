-- ===== src/Examples/Containers.antt =====
-- Dictionaries and arrays of rows at concrete values.
use kaya_basic.Base.{ℕ, ◌≡◌, refl, arith, ◌==◌, List, [], ◌∷◌, codes, ok, ◌>>=◌}
use mathlib.Core.List.Permᴰ
use kaya_basic.Array.Checked.Matrix.{get2_int}
use kaya_basic.Array.Rows.{array_of_rows}
use kaya_basic.Array.Rows.Laws.{rows_array, array_of_rows-get2}
use kaya_basic.Cpp.Int.{pos}
use kaya_basic.Dictionary.{Entry, Dictionary}
use kaya_basic.Dictionary.Laws.{Distinct, view}
use kaya_basic.Dictionary.Refine.{
  Event, assign_value, remove_key, remove_value, run, Steps, run-Steps,
}

-- A new entry goes in front of the others.
abbrev in_front : Entry ℕ → Dictionary ℕ → Dictionary ℕ
in_front e d = e ∷ d

abbrev events : List (Event ℕ)
events =
    assign_value (codes "a") 1
    ∷ assign_value (codes "b") 2
    ∷ assign_value (codes "a") 3
    ∷ remove_value 2
    ∷ remove_key (codes "c")
    ∷ []

abbrev empty : Dictionary ℕ
empty = []

run-Steps_example :
    Distinct (run ◌==◌ in_front 0 events empty)
    × Steps ◌==◌ events (view empty) (view (run ◌==◌ in_front 0 events empty))
run-Steps_example = run-Steps ◌==◌ in_front 0 (λ e d. Permᴰ.refl (e ∷ d)) events empty tt

abbrev two_rows : List (List ℕ)
two_rows = (1 ∷ 2 ∷ 3 ∷ []) ∷ (4 ∷ 5 ∷ 6 ∷ []) ∷ []

array_of_rows-get2_example :
    (array_of_rows 0 two_rows ≡ ok (rows_array 3 two_rows))
    × ((array_of_rows 0 two_rows >>= λ a. get2_int a (pos 1) (pos 2)) ≡ ok 6)
array_of_rows-get2_example =
    array_of_rows-get2 0 3 two_rows 1 2 (4 ∷ 5 ∷ 6 ∷ []) 6 (refl, (refl, tt)) (omega arith)
      (omega arith) (omega arith) refl refl
