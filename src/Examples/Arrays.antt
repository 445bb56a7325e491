-- ===== src/Examples/Arrays.antt =====
-- Arrays and collections at concrete inputs.
use kaya_basic.Base.{
  ◌++◌, none, some, ℕ, if◌then◌else◌, ◌≡◌, refl, arith, inl, inr, false, List, [], ◌∷◌, ok, ◌>>=◌,
}
use kaya_basic.Cpp.Int.{pos, negsuc, ◌+ℤ◌, ◌-ℤ◌}
use kaya_basic.Array.{Array, redim4, dims4, bounds, redim, offset4, blank}
use kaya_basic.Array.Redim.{IsSound, HasDims}
use kaya_basic.Array.Checked.{offset4_int}
use kaya_basic.Array.Checked.Redims.{made, redim4_int, redim4_int-Inside}
use kaya_basic.Array.Cells.{same_cell, read_cell, write_cell, get4-put4}
use kaya_basic.Array.Items.{append_all}
use kaya_basic.Array.Items.Laws.{append_all-IsSound}
use kaya_basic.Collection.{add_at, remove_at, add_all}
use kaya_basic.Collection.Itself.{add_self, add_self-endless}
use kaya_basic.Collection.Laws.{remove_at-add_at}

abbrev empty : Array ℕ
empty = blank

-- An array of 2 by 3 by 2 by 2 items, the first bounds from 1 on.
abbrev box : Array ℕ
box = record {
  preserve = false;
  items =
      0 ∷ 1 ∷ 2 ∷ 3 ∷ 4 ∷ 5 ∷ 6 ∷ 7 ∷ 8 ∷ 9 ∷ 10 ∷ 11 ∷ 12 ∷ 13 ∷ 14 ∷ 15 ∷ 16 ∷ 17 ∷ 18 ∷ 19 ∷ 20
      ∷ 21 ∷ 22 ∷ 23 ∷ [];
  dim1 = record { lo = pos 1; hi = pos 2; d = pos 2 };
  dim2 = record { lo = pos 0; hi = pos 2; d = pos 3 };
  dim3 = record { lo = pos 3; hi = pos 4; d = pos 2 };
  dim4 = record { lo = negsuc 0; hi = pos 0; d = pos 2 };
}

box-HasDims : HasDims box
box-HasDims = record {
  count1 = refl;
  count2 = refl;
  count3 = refl;
  count4 = refl;
  shape = inr (omega arith);
}

get4-put4_example :
    (do b ← write_cell box 1 2 0 1 77; read_cell b 1 1 1 0)
    ≡ (if same_cell 1 2 0 1 1 1 1 0 then ok 77 else read_cell box 1 1 1 0)
get4-put4_example =
    get4-put4 box box-HasDims refl (omega arith) 1 2 0 1 1 1 1 0 77
      (omega arith, omega arith, omega arith, omega arith)
      (omega arith, omega arith, omega arith, omega arith)

-- An array of 2 by 3 by 2 by 2 items, where the second pair of bounds is the wrong way round.
abbrev turned : Array ℕ
turned = made (pos 1) (pos 2) (pos 2) (pos 0) (pos 3) (pos 4) (negsuc 0) (pos 0) box 0

redim4_int-Inside_example :
    (redim4_int 0 (pos 1) (pos 2) (pos 2) (pos 0) (pos 3) (pos 4) (negsuc 0) (pos 0) box
      ≡ ok turned)
    × (offset4_int turned
          (turned.dim1.lo +ℤ pos 1)
          (turned.dim2.lo +ℤ pos 2)
          (turned.dim3.lo +ℤ pos 0)
          (turned.dim4.lo +ℤ pos 1)
        ≡ ok (
            offset4 turned
              (turned.dim1.lo +ℤ pos 1)
              (turned.dim2.lo +ℤ pos 2)
              (turned.dim3.lo +ℤ pos 0)
              (turned.dim4.lo +ℤ pos 1)))
unfolding redim4 redim dims4 bounds ◌-ℤ◌ ◌+ℤ◌
redim4_int-Inside_example =
    redim4_int-Inside (pos 1) (pos 2) (pos 2) (pos 0) (pos 3) (pos 4) (negsuc 0) (pos 0) box 0
      box-HasDims 1 2 0 1 (omega arith) (omega arith, omega arith, omega arith, omega arith)

-- Three items in one dimension, from 5 on.
abbrev row : Array ℕ
row = record empty { items = 4 ∷ 2 ∷ 4 ∷ []; dim1 = record { lo = pos 5; hi = pos 7; d = pos 3 } }

row-IsSound : IsSound row
unfolding ◌+ℤ◌
row-IsSound = record {
  dims = record {
    count1 = refl;
    count2 = refl;
    count3 = refl;
    count4 = refl;
    shape = inl (refl, refl, refl);
  };
  range = refl;
  items = refl;
}

append_all-IsSound_example :
    (a' : Array ℕ) × (append_all row (7 ∷ 8 ∷ []) ≡ ok a')
    × (a'.items ≡ row.items ++ 7 ∷ 8 ∷ [])
    × IsSound a'
append_all-IsSound_example =
    append_all-IsSound row (7 ∷ 8 ∷ []) row-IsSound refl (omega arith, omega arith)
      (omega arith, omega arith)

abbrev three : List ℕ
three = 4 ∷ 2 ∷ 4 ∷ []

add_self-endless_example :
    (add_self {A = ℕ} 100 (4 ∷ 2 ∷ []) 0 ≡ none)
    × (add_self {A = ℕ} 101 [] 0 ≡ some (add_all {A = ℕ} [] []))
add_self-endless_example = add_self-endless 100 4 (2 ∷ [])

remove_at-add_at_test : (add_at three 9 (pos 1) >>= λ ys. remove_at ys (pos 1)) ≡ ok three
remove_at-add_at_test = remove_at-add_at three 9 1 (omega arith)
