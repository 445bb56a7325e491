-- ===== src/Array/Rows.antt =====
-- An array made from a list of rows, and the arithmetic that changes an array in place.
pub mod Laws
use kaya_basic.Base.{
  ℕ, zero, suc, ◌+◌, ◌-◌, ◌*◌, ◌≤◌, ◌<◌, ◌^◌, ◌≢◌, ◌≡◌, refl, sym, ap, ◌∙◌, arith, false, some,
  none, List, [], ◌∷◌, ◌++◌, map, length, get_elem?, replicate, Outcome, ok, undefined, ◌>>=◌,
}
use kaya_basic.Cpp.Int.{ℤ, pos, ◌-ℤ◌}
use kaya_basic.Cpp.Word.{to_int}
use kaya_basic.Cpp.Checked.{add_int, sub_int, mul_int}
use kaya_basic.Array.{Array, blank, set_at}
use kaya_basic.Array.Checked.Matrix.{redim2_int}

module _ {A : Type 0} where
  -- `for (T x : it) { this->at(r*COL + c) = x; c++; }`
  unfoldable pub fill_row : ℤ → ℤ → ℤ → List A → List A → Outcome (List A)
  fill_row col r c [] xs = ok xs
  fill_row col r c (x ∷ it) xs = do
    first ← mul_int r col
    i ← add_int first c
    xs' ← set_at xs i x
    c' ← add_int c (pos 1)
    fill_row col r c' it xs'

  -- `for (auto it : args) { …; r++; }`
  unfoldable pub fill_rows : ℤ → ℤ → List (List A) → List A → Outcome (List A)
  unfolding fill_row
  fill_rows col r [] xs = ok xs
  fill_rows col r (it ∷ args) xs = do
    xs' ← fill_row col r (pos 0) it xs
    r' ← add_int r (pos 1)
    fill_rows col r' args xs'

  -- `ROW` and `COL` are what an `int` keeps of the sizes.
  unfoldable pub made_of : ℕ → A → List (List A) → Outcome (Array A)
  unfolding fill_rows
  made_of size v args = do
    let row = to_int (length args)
    let col = to_int size
    h1 ← sub_int row (pos 1)
    h2 ← sub_int col (pos 1)
    a ← redim2_int v (pos 0) h1 (pos 0) h2 blank
    items' ← fill_rows col (pos 0) args a.items
    ok (record a { items = items' })

  -- The constructor from a list of lists, which takes the length of the first for each of them; of
  -- no lists, there is no first to ask.
  unfoldable pub array_of_rows : A → List (List A) → Outcome (Array A)
  unfolding made_of
  array_of_rows v [] = undefined
  array_of_rows v (i ∷ args) = made_of (length i) v (i ∷ args)

-- `ar op= n`, by the operator of the numbers.
unfoldable pub each_updated : {A U : Type 0} → (A → U → A) → Array A → U → Array A
each_updated op a n = record a { items = map (λ i. op i n) a.items }

-- `ar op= ar2`: the items that both have.
zip_updated : {A U : Type 0} → (A → U → A) → List A → List U → List A
zip_updated op [] ns = []
zip_updated op (i ∷ is) [] = i ∷ is
zip_updated op (i ∷ is) (n ∷ ns) = op i n ∷ zip_updated op is ns

unfoldable pub each_updated_by : {A U : Type 0} → (A → U → A) → Array A → Array U → Array A
unfolding zip_updated
each_updated_by op a b = record a { items = zip_updated op a.items b.items }
