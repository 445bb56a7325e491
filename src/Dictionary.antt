-- ===== src/Dictionary.antt =====
-- `dictionary<T>` of lib/core/core.h, over `std::unordered_map`.
pub mod Laws
pub mod Refine
use kaya_basic.Base.{
  Bool, true, false, Option, none, some, List, [], ◌∷◌, if◌then◌else◌, length, Bytes,
}
use kaya_basic.Cpp.Int.{ℤ}
use kaya_basic.Cpp.Text.{equal}
use kaya_basic.Cpp.Word.{to_int}

abbrev pub Entry : Type 0 → Type 0
Entry T = Bytes × T

-- The entries in the order of the iteration.
abbrev pub Dictionary : Type 0 → Type 0
Dictionary T = List (Entry T)

module _ {T : Type 0} where
  -- `unordered_map::find`, with the value.
  unfoldable pub find_key : Bytes → Dictionary T → Option T
  find_key key [] = none
  find_key key ((k, v) ∷ d) = let rest = find_key key d in if equal k key then some v else rest

  -- A value that is written through the reference to the entry of a key.
  unfoldable pub write : Bytes → T → Dictionary T → Dictionary T
  write key v [] = []
  write key v ((k, u) ∷ d) =
      let rest = write key v d in if equal k key then (k, v) ∷ d else (k, u) ∷ rest

  -- `unordered_map::erase`, by key.
  unfoldable pub remove : Bytes → Dictionary T → Dictionary T
  remove key [] = []
  remove key ((k, v) ∷ d) = let rest = remove key d in if equal k key then d else (k, v) ∷ rest

  unfoldable pub contains : Bytes → Dictionary T → Bool
  contains key d = elim (find_key key d) [ none ↦ false | some v ↦ true ]

  -- `size()` in an `int`.
  unfoldable pub length_of : Dictionary T → ℤ
  length_of d = to_int (length d)

  -- The first entry, in the order of the iteration, whose value is the one given.
  unfoldable pub removeitem : (T → T → Bool) → T → Dictionary T → Dictionary T
  removeitem same x [] = []
  removeitem same x ((k, v) ∷ d) =
      let rest = removeitem same x d in if same v x then d else (k, v) ∷ rest

  -- `operator()`: a key that is not there gets an entry with the value `T()`. `place` puts a new
  -- entry into the order of the iteration, which it may change as a whole.
  module _ (place : Entry T → Dictionary T → Dictionary T) (initial : T) where
    unfoldable pub call : Bytes → Dictionary T → Dictionary T
    call key d = elim (find_key key d) [ none ↦ place (key, initial) d | some v ↦ d ]

    -- `d(key) = v`
    unfoldable pub put : Bytes → T → Dictionary T → Dictionary T
    unfolding call
    put key v d = write key v (call key d)
