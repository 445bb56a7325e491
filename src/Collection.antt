-- ===== src/Collection.antt =====
-- `collection<T>` of lib/core/core.h: a `std::list` that is also reached by an index.
pub mod Laws
pub mod Itself
use kaya_basic.Base.{
  ℕ, suc, ◌+◌, Bool, List, [], ◌∷◌, ◌++◌, not, ◌==◌, if◌then◌else◌, length, take, drop, get_elem?,
  some, none, codes, Outcome, ok, throws, undefined, literal, ◌>>=◌,
}
use kaya_basic.Cpp.Int.{ℤ, pos, negsuc, ◌-ℤ◌, eqb_ℤ}

module _ {A : Type 0} where
  -- `while (n-- && i != end()) i++;`: the value of `n` behind the loop, and the steps made.
  unfoldable pub walk : List A → ℤ → ℕ → ℤ × ℕ
  walk [] n i = (n -ℤ pos 1, i)
  walk (x ∷ xs) n i =
      let rest = walk xs (n -ℤ pos 1) (suc i) in if eqb_ℤ n (pos 0) then (n -ℤ pos 1, i) else rest

  -- `if (n != -1) throw "index error.";`
  unfoldable pub seek : List A → ℤ → Outcome ℕ
  unfolding walk
  seek xs index =
      let (n, i) = walk xs index 0 in
      if eqb_ℤ n (negsuc 0) then ok i else throws (literal (codes "index error."))

  unfoldable pub add : List A → A → List A
  add xs x = xs ++ x ∷ []

  unfoldable pub add_at : List A → A → ℤ → Outcome (List A)
  add_at xs x index = do i ← seek xs index; ok (take i xs ++ x ∷ drop i xs)

  -- `erase(end())` and `*end()` have no defined result.
  unfoldable pub remove_at : List A → ℤ → Outcome (List A)
  remove_at xs index = do
    i ← seek xs index
    (if i == length xs then undefined else ok (take i xs ++ drop (suc i) xs))

  unfoldable pub item : List A → ℤ → Outcome A
  item xs index = do i ← seek xs index; elim (get_elem? xs i) [ some x ↦ ok x | none ↦ undefined ]

  -- `col << col2`, where the two are not one object.
  unfoldable pub add_all : List A → List A → List A
  unfolding add
  add_all xs [] = xs
  add_all xs (y ∷ ys) = add_all (add xs y) ys

  module _ (same : A → A → Bool) where
    -- The first item that is equal to `x` is erased.
    unfoldable pub remove_item : List A → A → List A
    remove_item [] x = []
    remove_item (y ∷ ys) x = let rest = remove_item ys x in if same y x then ys else y ∷ rest

    -- `col >> col2`
    unfoldable pub remove_all : List A → List A → List A
    unfolding remove_item
    remove_all xs [] = xs
    remove_all xs (y ∷ ys) = remove_all (remove_item xs y) ys
