-- ===== src/Debug/Ends.antt =====
-- The end of a vector: what `push_back` put there is changed, read and taken off again.
use kaya_basic.Base.{
  ◌+◌, ◌-◌, ◌≡◌, refl, ap, arith, false, some, List, [], ◌∷◌, ◌++◌, ◌==◌, length, get_elem?, set,
  length-append, take-append, ok,
}
use kaya_basic.Debug.{set_back, pop_back, index}

module _ {A : Type 0} where
  length-snoc : (xs : List A) (x : A) → length (xs ++ x ∷ []) ≡ length xs + 1
  length-snoc xs x = length-append xs (x ∷ [])

  set-snoc : (xs : List A) (x y : A) → set (xs ++ x ∷ []) (length xs) y ≡ xs ++ y ∷ []
  set-snoc [] x y = refl
  set-snoc (z ∷ xs) x y = ap (λ t. z ∷ t) (set-snoc xs x y)

  get_elem?-middle :
      (xs : List A) (x : A) (ys : List A) → get_elem? (xs ++ x ∷ ys) (length xs) ≡ some x
  get_elem?-middle [] x ys = refl
  get_elem?-middle (y ∷ xs) x ys = get_elem?-middle xs x ys

  pub index-middle : (xs : List A) (x : A) (ys : List A) → index (xs ++ x ∷ ys) (length xs) ≡ ok x
  unfolding index
  index-middle xs x ys = ground (arith, get_elem?-middle xs x ys)

  last_of : (xs : List A) (x : A) → length (xs ++ x ∷ []) - 1 ≡ length xs
  last_of xs x = omega (arith, length-snoc xs x)

  not_empty : (xs : List A) (x : A) → (length (xs ++ x ∷ []) == 0) ≡ false
  not_empty xs x = ground (arith, length-snoc xs x)

  pub set_back-snoc : (xs : List A) (x y : A) → set_back (xs ++ x ∷ []) y ≡ ok (xs ++ y ∷ [])
  unfolding set_back
  set_back-snoc xs x y = rw (not_empty xs x, last_of xs x, set-snoc xs x y)

  pub pop_back-snoc : (xs : List A) (x : A) → pop_back (xs ++ x ∷ []) ≡ ok xs
  unfolding pop_back
  pop_back-snoc xs x = rw (not_empty xs x, last_of xs x, take-append xs (x ∷ []))
