-- ===== src/Array/Rows/Laws.antt =====
-- An array made from rows of one length holds them.
use kaya_basic.Base.{
  ℕ, zero, suc, ◌+◌, ◌-◌, ◌*◌, ◌%◌, ◌≤◌, ◌<◌, ◌^◌, ◌≢◌, ◌≡◌, refl, ap, ◌∙◌, arith, true, false,
  lt→ltb, some, List, [], ◌∷◌, ◌++◌, All, length, get_elem?, drop, drop_all, replicate,
  length-append, length-drop, length-replicate, append_assoc, append-nil, take-nil, ok, ◌>>=◌,
}
use kaya_basic.Array.{Array, is_used, redim2, dims2, redim, size, resize, blank, set_at, no_dim}
use kaya_basic.Array.Redim.{bounds-from_zero}
use kaya_basic.Array.Fill.{set-append}
use kaya_basic.Array.Index.{at-ok}
use kaya_basic.Array.Checked.{mul-le}
use kaya_basic.Array.Checked.Redims.{factors-le}
use kaya_basic.Array.Checked.Matrix.{redim2_int-new, get2_int, offset2_int}
use kaya_basic.Cpp.Word.{to_int}
use kaya_basic.Cpp.Checked.{add_int, add_int-pos, sub_int-pos, mul_int-nat}
use mathlib.Core.Option.{some-injective}
use native.Mathlib.Nat.{mul-le-mul_right, suc-mul}
use kaya_basic.Array.Rows.{fill_row, fill_rows, made_of, array_of_rows}
use kaya_basic.Cpp.Int.{pos, pos-mul-pos}

add_int-one : (n : ℕ) → n + 1 < 2 ^ 31 → add_int (pos n) (pos 1) ≡ ok (pos (suc n))
add_int-one n b = add_int-pos n 1 b ∙ ap (λ k. ok (pos k)) (omega arith)

to_int_small : (n : ℕ) → n < 2 ^ 31 → to_int n ≡ pos n
to_int_small n h = ground arith

module _ {A : Type 0} where
  abbrev pub flat : List (List A) → List A
  flat [] = []
  flat (row ∷ rows) = row ++ flat rows

  -- Each row has so many items.
  abbrev pub AllLong : ℕ → List (List A) → Type 0
  AllLong col = All (λ (row : List A). length row ≡ col)

  set_at-append :
      (done : List A) (y t : A) (room : List A) (n : ℕ)
      → n ≡ length done
      → n < 2 ^ 63
      → set_at (done ++ y ∷ room) (pos n) t ≡ ok (done ++ t ∷ room)
  unfolding set_at
  set_at-append done y t room n e b =
      let same : n % 2 ^ 64 ≡ length done = omega arith in
      let inside : length done < length (done ++ y ∷ room) =
        omega (arith, length-append done (y ∷ room)) in
      rw (same, lt→ltb _ _ inside, set-append done y t room) refl

  fill_row-append :
      (col r c : ℕ) (done xs room : List A)
      → r * col + c ≡ length done
      → length xs ≤ length room
      → length done + length xs < 2 ^ 31
      → fill_row (pos col) (pos r) (pos c) xs (done ++ room)
        ≡ ok (done ++ xs ++ drop (length xs) room)
  unfolding fill_row
  fill_row-append col r c done [] room e h b = ground (arith, append-nil done)
  fill_row-append col r c done (x ∷ xs) [] e h b = absurd (omega arith)
  fill_row-append col r c done (x ∷ xs) (y ∷ room) e h b =
      let longer : length (done ++ x ∷ []) ≡ suc (length done) =
        omega (arith, length-append done (x ∷ [])) in
      let next : r * col + suc c ≡ length (done ++ x ∷ []) = omega arith in
      let rest =
        fill_row-append col r (suc c) (done ++ x ∷ []) xs room next (omega arith) (omega arith) in
      rw
        (
          mul_int-nat r col (omega arith),
          add_int-pos (r * col) c (omega arith),
          set_at-append done y x room (r * col + c) e (omega arith),
          add_int-one c (omega arith),
        )
        (rw (append_assoc done (x ∷ []) room, append_assoc done (x ∷ []) xs) at rest)

  length-flat :
      (col : ℕ) (rows : List (List A)) → AllLong col rows → length (flat rows) ≡ length rows * col
  length-flat col [] h = omega arith
  length-flat col (row ∷ rows) (h, hs) =
      omega (arith, length-append row (flat rows), length-flat col rows hs)

  fill_rows-append :
      (col r : ℕ) (done room : List A) (rows : List (List A))
      → AllLong col rows
      → r * col ≡ length done
      → length room ≡ length rows * col
      → length done + length room < 2 ^ 31
      → 0 < col
      → fill_rows (pos col) (pos r) rows (done ++ room) ≡ ok (done ++ flat rows)
  unfolding fill_rows
  fill_rows-append col r done room [] h e k b some_col =
      let empty : drop (length room) room ≡ [] = drop_all (length room) room (omega arith) in
      ground (arith, empty)
  fill_rows-append col r done room (row ∷ rows) (h, hs) e k b some_col =
      let first = fill_row-append col r 0 done row room (omega arith) (omega arith) (omega arith) in
      let rest =
        fill_rows-append col (suc r) (done ++ row) (drop (length row) room) rows hs
          (omega (arith, length-append done row)) (omega (arith, length-drop (length row) room))
          (omega (arith, length-append done row, length-drop (length row) room)) some_col in
      let counted = mul-le r col some_col in
      rw (first, add_int-one r (omega arith)) (rw (append_assoc done row (flat rows)) at rest)

  -- The array that holds the rows, from 0 on both ways.
  abbrev pub rows_array : ℕ → List (List A) → Array A
  rows_array col rows = record {
    preserve = false;
    items = flat rows;
    dim1 = record { lo = pos 0; hi = pos (length rows - 1); d = pos (length rows) };
    dim2 = record { lo = pos 0; hi = pos (col - 1); d = pos col };
    dim3 = no_dim;
    dim4 = no_dim;
  }

  room_for :
      (v : A) (row col : ℕ)
      → row ≢ 0
      → col ≢ 0
      → row * col < 2 ^ 31
      → redim2 v (pos 0) (pos (row - 1)) (pos 0) (pos (col - 1)) blank ≡ record {
        preserve = false;
        items = replicate (row * col) v;
        dim1 = record { lo = pos 0; hi = pos (row - 1); d = pos row };
        dim2 = record { lo = pos 0; hi = pos (col - 1); d = pos col };
        dim3 = no_dim;
        dim4 = no_dim;
      }
  unfolding redim2 dims2 redim size resize
  room_for v row col ne ne' b =
      let wide : (row * col) % 2 ^ 64 ≡ row * col = omega arith in
      let all : row * col - 0 ≡ row * col = omega arith in
      let used : is_used (pos col) ≡ true = ground arith in
      rw
        (
          bounds-from_zero row ne,
          bounds-from_zero col ne',
          used,
          pos-mul-pos row col,
          wide,
          take-nil (row * col),
          all,
        )
        refl

  get_elem?-front :
      (xs ys : List A) (i : ℕ) → i < length xs → get_elem? (xs ++ ys) i ≡ get_elem? xs i
  get_elem?-front [] ys i h = absurd (omega arith)
  get_elem?-front (x ∷ xs) ys zero h = refl
  get_elem?-front (x ∷ xs) ys (suc i) h = get_elem?-front xs ys i (omega arith)

  get_elem?-behind :
      (xs ys : List A) (n i : ℕ) → n ≡ length xs + i → get_elem? (xs ++ ys) n ≡ get_elem? ys i
  get_elem?-behind [] ys n i e = ap (get_elem? ys) (omega arith)
  get_elem?-behind (x ∷ xs) ys zero i e = absurd (omega arith)
  get_elem?-behind (x ∷ xs) ys (suc n) i e = get_elem?-behind xs ys n i (omega arith)

  item_of_row :
      (col : ℕ) (rows : List (List A)) (r c : ℕ) (row : List A)
      → AllLong col rows
      → get_elem? rows r ≡ some row
      → c < col
      → get_elem? (flat rows) (r * col + c) ≡ get_elem? row c
  item_of_row col [] r c row h e lt = ground arith
  item_of_row col (first ∷ rows) zero c row (h, hs) e lt =
      let here : 0 * col + c ≡ c = omega arith in
      rw here (
        get_elem?-front first (flat rows) c (omega arith)
        ∙ ap (λ row. get_elem? row c) (some-injective _ _ e))
  item_of_row col (first ∷ rows) (suc r) c row (h, hs) e lt =
      get_elem?-behind first (flat rows) (suc r * col + c) (r * col + c) (omega arith)
      ∙ item_of_row col rows r c row hs e lt

  made_of-flat :
      (v : A) (col : ℕ) (rows : List (List A))
      → AllLong col rows
      → col ≢ 0
      → length rows ≢ 0
      → length rows * col < 2 ^ 31
      → made_of col v rows ≡ ok (rows_array col rows)
  unfolding made_of
  made_of-flat v col rows h ne ne' b =
      let size = length-replicate {A = A} (length rows * col) v in
      let filled =
        fill_rows-append col 0 [] (replicate (length rows * col) v) rows h (omega arith) size
          (omega (arith, size)) (omega arith) in
      let (few_rows, few_cols, _, _) =
        factors-le (length rows) col 1 1 (omega arith) (omega arith) (omega arith) (omega arith) in
      rw
        (
          to_int_small (length rows) (omega arith),
          to_int_small col (omega arith),
          sub_int-pos (length rows) 1 (omega arith) (omega arith),
          sub_int-pos col 1 (omega arith) (omega arith),
          redim2_int-new v (pos 0) (pos (length rows - 1)) (pos 0) (pos (col - 1))
              (rw (bounds-from_zero (length rows) ne', bounds-from_zero col ne) b),
          room_for v (length rows) col ne' ne b,
          filled,
        )
        refl

  array_of_rows-flat :
      (v : A) (col : ℕ) (rows : List (List A))
      → AllLong col rows
      → col ≢ 0
      → length rows ≢ 0
      → length rows * col < 2 ^ 31
      → array_of_rows v rows ≡ ok (rows_array col rows)
  unfolding array_of_rows
  array_of_rows-flat v col [] h ne ne' b = absurd (ne' refl)
  array_of_rows-flat v col (i ∷ args) h ne ne' b =
      ap (λ n. made_of n v (i ∷ args)) h.0 ∙ made_of-flat v col (i ∷ args) h ne ne' b

  get2-rows :
      (col : ℕ) (rows : List (List A)) (r c : ℕ) (row : List A) (x : A)
      → AllLong col rows
      → length rows * col < 2 ^ 31
      → r < length rows
      → c < col
      → get_elem? rows r ≡ some row
      → get_elem? row c ≡ some x
      → get2_int (rows_array col rows) (pos r) (pos c) ≡ ok x
  unfolding get2_int offset2_int
  get2-rows col rows r c row x h b lt lt' e e' =
      let rows_below : suc r * col ≤ length rows * col = mul-le-mul_right col lt in
      let below : r * col + c < 2 ^ 31 = omega (arith, suc-mul r col) in
      let same : (r * col + c) % 2 ^ 64 ≡ r * col + c = omega arith in
      let r' : r - 0 ≡ r = omega arith in
      let c' : c - 0 ≡ c = omega arith in
      let counted = mul-le r col (omega arith) in
      rw
        (
          sub_int-pos r 0 (omega arith) (omega arith),
          sub_int-pos c 0 (omega arith) (omega arith),
          r',
          c',
          mul_int-nat r col (omega arith),
          add_int-pos (r * col) c below,
        )
        (at-ok (flat rows) (r * col + c) x (rw same (item_of_row col rows r c row h e lt' ∙ e')))

  -- An array made from rows, all of one length that is not 0, is a matrix from 0 on both ways whose
  -- item at a row and a column is the item of that row, as long as there is a row and the items are
  -- fewer than 2 ^ 31; no `int` overflows, neither in the constructor nor in the access.
  pub array_of_rows-get2 :
      (v : A) (col : ℕ) (rows : List (List A)) (r c : ℕ) (row : List A) (x : A)
      → AllLong col rows
      → length rows * col < 2 ^ 31
      → r < length rows
      → c < col
      → get_elem? rows r ≡ some row
      → get_elem? row c ≡ some x
      → (array_of_rows v rows ≡ ok (rows_array col rows))
        × ((array_of_rows v rows >>= λ a. get2_int a (pos r) (pos c)) ≡ ok x)
  array_of_rows-get2 v col rows r c row x h b lt lt' e e' =
      let made = array_of_rows-flat v col rows h (omega arith) (omega arith) b in
      (made, rw made (get2-rows col rows r c row x h b lt lt' e e'))
