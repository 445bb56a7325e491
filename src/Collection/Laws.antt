-- ===== src/Collection/Laws.antt =====
-- Which indices a collection accepts, and what its operations do there.
use kaya_basic.Base.{
  ℕ, zero, suc, ◌+◌, ◌-◌, ◌≤◌, ◌<◌, ◌≡◌, refl, arith, Bool, true, false, List, [], ◌∷◌, ◌++◌, ◌==◌,
  leb, ltb, if◌then◌else◌, All, le→leb, lt→ltb, dec_le, length, take, drop, get_elem?, some, none,
  length-append, take-take-append, take-append-drop, length-take, codes, ok, throws, undefined,
  literal, ◌>>=◌,
}
use kaya_basic.Cpp.Int.{pos, negsuc, ◌-ℤ◌}
use kaya_basic.Collection.{walk, seek, add_at, remove_at, item, remove_item}

module _ {A : Type 0} where
  walk_inside : (xs : List A) (n i : ℕ) → n ≤ length xs → walk xs (pos n) i ≡ (negsuc 0, i + n)
  unfolding walk ◌-ℤ◌
  walk_inside [] zero i h = ground arith
  walk_inside [] (suc n) i h = absurd (omega arith)
  walk_inside (x ∷ xs) zero i h = ground arith
  walk_inside (x ∷ xs) (suc n) i h = ground (arith, walk_inside xs n (suc i))

  walk_past :
      (xs : List A) (n i : ℕ) → length xs < n → (walk xs (pos n) i).0 ≡ pos (n - length xs - 1)
  unfolding walk ◌-ℤ◌
  walk_past [] n i h = ground arith
  walk_past (x ∷ xs) zero i h = absurd (omega arith)
  walk_past (x ∷ xs) (suc n) i h = ground (arith, walk_past xs n (suc i))

  walk_negative : (xs : List A) (n i : ℕ) → (walk xs (negsuc n) i).0 ≡ negsuc (n + length xs + 1)
  unfolding walk ◌-ℤ◌
  walk_negative [] n i = ground arith
  walk_negative (x ∷ xs) n i = ground (arith, walk_negative xs (suc n) (suc i))

  -- The index test accepts `0 .. size`, the end included.
  pub seek-branches :
      (xs : List A) (n : ℕ)
      → seek xs (pos n)
        ≡ (if leb n (length xs) then ok n else throws (literal (codes "index error.")))
  unfolding seek
  seek-branches xs n = elim (dec_le n (length xs)) [
    | yes le ↦ rw (walk_inside xs n 0 le) (ground arith)
    | no gt ↦ rw (walk_past xs n 0 (omega arith)) (ground arith)
  ]

  pub seek-negative :
      (xs : List A) (n : ℕ) → seek xs (negsuc n) ≡ throws (literal (codes "index error."))
  unfolding seek
  seek-negative xs n = rw (walk_negative xs n 0) (ground arith)

  -- `add(x, index)` puts the item before position `index`, up to the end, and throws past it, for
  -- every index that is not negative.
  pub add_at-branches :
      (xs : List A) (x : A) (n : ℕ)
      → add_at xs x (pos n) ≡ (
          if leb n (length xs)
          then ok (take n xs ++ x ∷ drop n xs)
          else throws (literal (codes "index error.")))
  unfolding add_at
  add_at-branches xs x n = ground (arith, seek-branches xs n)

  -- `remove(n)` erases the item at `n` and throws past the size; at `n = size` the test lets it
  -- erase the end itself.
  pub remove_at-branches :
      (xs : List A) (n : ℕ)
      → remove_at xs (pos n) ≡ (
          if ltb n (length xs)
          then ok (take n xs ++ drop (suc n) xs)
          else if n == length xs
          then undefined
          else throws (literal (codes "index error.")))
  unfolding remove_at
  remove_at-branches xs n = ground (arith, seek-branches xs n)

  get_elem?-end : (xs : List A) → get_elem? xs (length xs) ≡ none
  get_elem?-end [] = refl
  get_elem?-end (x ∷ xs) = get_elem?-end xs

  -- So does the access by an index, at `n = size`.
  pub item-end : (xs : List A) → item xs (pos (length xs)) ≡ undefined
  unfolding item
  item-end xs = ground (arith, seek-branches xs (length xs), get_elem?-end xs)

  pub item-some :
      (xs : List A) (n : ℕ) (x : A)
      → get_elem? xs n ≡ some x
      → n < length xs
      → item xs (pos n) ≡ ok x
  unfolding item
  item-some xs n x e h = ground (arith, seek-branches xs n)

  longer : (xs : List A) (x : A) (n : ℕ) → n ≤ length xs → n < length (take n xs ++ x ∷ drop n xs)
  longer xs x n h = omega (arith, length-append (take n xs) (x ∷ drop n xs), length-take n xs)

  drop_after :
      (xs : List A) (x : A) (n : ℕ)
      → n ≤ length xs
      → drop (suc n) (take n xs ++ x ∷ drop n xs) ≡ drop n xs
  drop_after xs x zero h = refl
  drop_after [] x (suc n) h = absurd (omega arith)
  drop_after (y ∷ xs) x (suc n) h = drop_after xs x n (omega arith)

  -- Removing at an index undoes inserting there, for every index up to the size.
  pub remove_at-add_at :
      (xs : List A) (x : A) (n : ℕ)
      → n ≤ length xs
      → (add_at xs x (pos n) >>= λ ys. remove_at ys (pos n)) ≡ ok xs
  remove_at-add_at xs x n h = rw (
    add_at-branches xs x n,
    le→leb n (length xs) h,
    remove_at-branches (take n xs ++ x ∷ drop n xs) n,
    lt→ltb n _ (longer xs x n h),
    take-take-append n xs (x ∷ drop n xs) h,
    drop_after xs x n h,
    take-append-drop,
  )

  module _ (same : A → A → Bool) where
    -- No item of the list is equal to `x`.
    abbrev pub Lacks : List A → A → Type 0
    Lacks xs x = All (λ y. same y x ≡ false) xs

    pub remove_item-Lacks : (xs : List A) (x : A) → Lacks xs x → remove_item same xs x ≡ xs
    unfolding remove_item
    remove_item-Lacks [] x h = refl
    remove_item-Lacks (y ∷ ys) x (hy, h) = ground (arith, remove_item-Lacks ys x h)

    -- `removeitem` erases the first item that is equal to `x`, and that one only.
    pub remove_item-first :
        (before : List A) (y x : A) (after : List A)
        → Lacks before x
        → same y x ≡ true
        → remove_item same (before ++ y ∷ after) x ≡ before ++ after
    unfolding remove_item
    remove_item-first [] y x after h e = ground arith
    remove_item-first (z ∷ before) y x after (hz, h) e =
        ground (arith, remove_item-first before y x after h)
