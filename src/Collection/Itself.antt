-- ===== src/Collection/Itself.antt =====
-- `col << col` and `col >> col` of `collection<T>`: the loop runs over the list that it changes.
use kaya_basic.Base.{
  ℕ, zero, suc, ◌<◌, ◌≡◌, refl, arith, Bool, true, Option, none, some, List, [], ◌∷◌, ◌++◌, ◌==◌,
  if◌then◌else◌, Outcome, ok, undefined, length, length-append, ltb, take, drop, get_elem?,
  get_elem?-none, Option-cases, inl, inr,
}
use kaya_basic.Collection.{add, add_all}

module _ {A : Type 0} where
  -- `for (auto i : col) this->add(i)`, at the item with the number `i`. An item is put before the
  -- end at which the loop stops. On fuel; `none` is a loop that still runs.
  unfoldable pub add_self : ℕ → List A → ℕ → Option (List A)
  add_self zero xs i = none
  add_self (suc fuel) xs i = elim (get_elem? xs i) [
    | none ↦ some xs
    | some x ↦ add_self fuel (add xs x) (suc i)
  ]

  module _ (same : A → A → Bool) where
    -- Where the first item that is equal to `x` stands.
    unfoldable pub place_of : List A → A → Option ℕ
    place_of [] x = none
    place_of (y ∷ ys) x =
        let rest = place_of ys x in
        if same y x then some 0 else elim rest [ none ↦ none | some j ↦ some (suc j) ]

    -- `for (auto i : col) this->removeitem(i)`. The step behind an item that was erased has no
    -- defined result; an item that is erased before it moves the numbers down.
    unfoldable pub remove_self : ℕ → List A → ℕ → Option (Outcome (List A))
    remove_self zero xs i = none
    remove_self (suc fuel) xs i = elim (get_elem? xs i) [
      | none ↦ some (ok xs)
      | some x ↦ elim (place_of xs x) [
        | none ↦ remove_self fuel xs (suc i)
        | some j ↦
            let rest =
              remove_self fuel (take j xs ++ drop (suc j) xs) (if ltb j i then i else suc i) in
            if j == i then some undefined else rest
      ]
    ]

    remove_self-undefined :
        (fuel : ℕ) (x : A) (xs : List A)
        → same x x ≡ true
        → remove_self (suc fuel) (x ∷ xs) 0 ≡ some undefined
    unfolding remove_self place_of
    remove_self-undefined fuel x xs e = ground arith

  add_self-inside : (fuel : ℕ) (xs : List A) (i : ℕ) → i < length xs → add_self fuel xs i ≡ none
  unfolding add_self add
  add_self-inside zero xs i h = refl
  add_self-inside (suc fuel) xs i h = elim (Option-cases (get_elem? xs i)) [
    | inl e ↦ absurd (get_elem?-none xs i h e)
    | inr (y, e) ↦
        rw (add_self, e)
          (add_self-inside fuel (add xs y) (suc i) (omega (arith, h, length-append xs (y ∷ []))))
  ]

  -- `col << col` of a collection with an item never ends, whatever the fuel, since every round puts
  -- one more item before the end; of an empty one it ends in the first round and gives what `<<` of
  -- two empty collections gives.
  pub add_self-endless :
      (fuel : ℕ) (x : A) (xs : List A)
      → (add_self fuel (x ∷ xs) 0 ≡ none) × (add_self (suc fuel) [] 0 ≡ some (add_all [] []))
  unfolding add_self add_all
  add_self-endless fuel x xs = (add_self-inside fuel (x ∷ xs) 0 (omega arith), refl)
