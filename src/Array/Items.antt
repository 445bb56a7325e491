-- ===== src/Array/Items.antt =====
-- Appending to an array, removing from it, and arithmetic on it.
pub mod Laws
use kaya_basic.Base.{
  ℕ, zero, suc, ◌+◌, ◌-◌, ◌*◌, ◌≤◌, ◌<◌, ◌≡◌, refl, sym, ap, ◌∙◌, arith, Bool, true, false, not,
  some, none, List, [], ◌∷◌, ◌++◌, map, if◌then◌else◌, length, get_elem?, take, drop, codes,
  Outcome, ok, undefined, throws, text, ◌>>=◌, ◌>>◌,
}
use kaya_basic.Cpp.Checked.{add_int, sub_int}
use kaya_basic.Cpp.Int.{ℤ, pos, ◌+ℤ◌, ◌-ℤ◌}
use kaya_basic.Array.{Dim, Array, is_used, redim1, redim2, blank, set_at}

-- `dim[1].d++; dim[1].hi++;`
abbrev pub one_more : Dim → Outcome Dim
one_more m = do
  d' ← add_int m.d (pos 1)
  hi' ← add_int m.hi (pos 1)
  ok (record m { d = d'; hi = hi' })

-- `dim[1].d--; dim[1].hi--;`
abbrev pub one_less : Dim → Outcome Dim
one_less m = do
  d' ← sub_int m.d (pos 1)
  hi' ← sub_int m.hi (pos 1)
  ok (record m { d = d'; hi = hi' })

module _ {A : Type 0} where
  -- `for (T x : args) this->at(n++) = x;`
  fill_from : List A → ℕ → List A → Outcome (List A)
  fill_from xs n [] = ok xs
  fill_from xs n (x ∷ args) = do xs' ← set_at xs (pos n) x; fill_from xs' (suc n) args

  -- The constructor from an initializer list.
  unfoldable pub array_of : A → List A → Outcome (Array A)
  unfolding fill_from ◌-ℤ◌
  array_of v args =
      let a = redim1 v (pos 0) (pos (length args) -ℤ pos 1) blank in
      (do items' ← fill_from a.items 0 args; ok (record a { items = items' }))

  -- `ar << item`
  unfoldable pub append : Array A → A → Outcome (Array A)
  append a item =
      if is_used a.dim2.d
      then throws (text (codes "not support <<"))
      else do m ← one_more a.dim1; ok (record a { dim1 = m; items = a.items ++ (item ∷ []) })

  -- `ar << ar2`, where the two are not one object.
  unfoldable pub append_each : Array A → List A → Outcome (Array A)
  append_each a [] = ok a
  append_each a (x ∷ xs) = do a' ← append a x; append_each a' xs

  unfoldable pub append_all : Array A → List A → Outcome (Array A)
  unfolding append_each append
  append_all a xs =
      if is_used a.dim2.d then throws (text (codes "not support <<")) else append_each a xs

  -- `dim[1].d--; dim[1].hi--; this->erase(it);` at position `k`.
  unfoldable pub erase_at : ℕ → Array A → Outcome (Array A)
  erase_at k a = do
    m ← one_less a.dim1
    ok (record a { dim1 = m; items = take k a.items ++ drop (suc k) a.items })

  -- `erase(it)` at position `k`, and then `it--` with the iterator that was erased.
  unfoldable pub erased : ℕ → Array A → Outcome (Array A)
  unfolding erase_at
  erased k a = do a' ← erase_at k a; undefined

  module _ (same : A → A → Bool) where
    -- The loop, at position `k`. `it--` at `begin()` has no defined result.
    unfoldable pub remove_from : ℕ → Array A → A → Outcome (Array A)
    unfolding erased
    remove_from zero a item = elim (get_elem? a.items 0) [
      | none ↦ undefined
      | some x ↦ if same x item then erased 0 a else undefined
    ]
    remove_from (suc k) a item =
        let next = remove_from k a item in
        elim (get_elem? a.items (suc k)) [
          | none ↦ undefined
          | some x ↦ if same x item then erased (suc k) a else next
        ]

    -- `it = end() - 1`, which an empty vector does not have.
    unfoldable pub from_last : ℕ → Array A → A → Outcome (Array A)
    unfolding remove_from
    from_last zero a item = undefined
    from_last (suc k) a item = remove_from k a item

    -- `ar >> item`
    unfoldable pub remove : Array A → A → Outcome (Array A)
    unfolding from_last
    remove a item =
        if is_used a.dim2.d
        then throws (text (codes "not support >>"))
        else from_last (length a.items) a item

    -- `ar >> ar2`
    unfoldable pub remove_each : Array A → List A → Outcome (Array A)
    remove_each a [] = ok a
    remove_each a (x ∷ xs) = do a' ← remove a x; remove_each a' xs

    unfoldable pub remove_all : Array A → List A → Outcome (Array A)
    unfolding remove_each remove
    remove_all a xs =
        if is_used a.dim2.d then throws (text (codes "not support >>")) else remove_each a xs

  module _ (op : A → A → A) where
    -- `ar op n` and `ar op= n`.
    unfoldable pub each_with : Array A → A → Array A
    each_with a n = record a { items = map (λ i. op i n) a.items }

    -- The loop over both arrays ends with the shorter one; the rest of the first is kept.
    unfoldable pub zip_front : List A → List A → List A
    zip_front [] ys = []
    zip_front (x ∷ xs) [] = x ∷ xs
    zip_front (x ∷ xs) (y ∷ ys) = op x y ∷ zip_front xs ys

    -- `ar1 op ar2` and `ar1 op= ar2`.
    unfoldable pub each_with_each : Array A → Array A → Array A
    unfolding zip_front
    each_with_each a b = record a { items = zip_front a.items b.items }
