-- ===== src/Array.antt =====
-- `array<T>` of lib/core/core.h: a vector with up to four dimensions, each with its own lower
-- bound. The numbers are exact here: `size`, `bounds` and the offsets are what the code computes
-- where no `int` overflows, and Array/Checked computes in the range of `int`, as the code does.
pub mod Redim
pub mod Index
pub mod Items
pub mod Fill
pub mod Parts
pub mod Rows
pub mod Checked
pub mod Cells
use kaya_basic.Base.{
  ℕ, ◌+◌, ◌-◌, Bool, true, false, ◌&&◌, Option, none, some, List, [], ◌∷◌, ◌++◌, ltb, leb, ◌==◌,
  if◌then◌else◌, not, length, get_elem?, set, take, replicate, codes, Outcome, ok, throws, text,
  out_of_range, ◌>>=◌,
}
use kaya_basic.Cpp.Int.{ℤ, pos, negsuc, ◌+ℤ◌, ◌-ℤ◌, ◌*ℤ◌, ltb_ℤ}
use kaya_basic.Cpp.Word.{to_size}

pub record Dim : Type 0 where
  pub lo : ℤ
  pub hi : ℤ
  pub d : ℤ

pub record Array (A : Type 0) : Type 0 where
  pub preserve : Bool
  pub items : List A
  pub dim1 : Dim
  pub dim2 : Dim
  pub dim3 : Dim
  pub dim4 : Dim

-- The bounds after `if (h < l) swap(l, h)`, with the count of the dimension.
unfoldable pub bounds : ℤ → ℤ → Dim
unfolding ◌-ℤ◌ ◌+ℤ◌
bounds l h =
    if ltb_ℤ h l
    then record { lo = h; hi = l; d = l -ℤ h +ℤ pos 1 }
    else record { lo = l; hi = h; d = h -ℤ l +ℤ pos 1 }

abbrev pub no_dim : Dim
no_dim = record { lo = pos 0; hi = pos 0; d = pos 0 }

-- The test `if (dim[n].d)`.
abbrev pub is_used : ℤ → Bool
is_used d = elim d [ pos n ↦ not (n == 0) | negsuc n ↦ true ]

module _ {A : Type 0} where
  unfoldable pub size : Array A → ℤ
  size a =
      let ret = a.dim1.d in
      let ret2 = if is_used a.dim2.d then ret *ℤ a.dim2.d else ret in
      let ret3 = if is_used a.dim3.d then ret2 *ℤ a.dim3.d else ret2 in
      if is_used a.dim4.d then ret3 *ℤ a.dim4.d else ret3

  -- `vector::resize`, with the value that new items get.
  unfoldable pub resize : ℕ → A → List A → List A
  resize n v xs = take n xs ++ replicate (n - length xs) v

  -- `redim()`
  unfoldable pub redim : A → Array A → Array A
  redim v a =
      let kept = if a.preserve then a.items else [] in
      record a { items = resize (to_size (size a)) v kept }

  -- What the overloads of `redim` do to the dimensions before they call `redim()`.
  unfoldable pub dims1 : ℤ → ℤ → Array A → Array A
  dims1 l1 h1 a =
      if a.preserve
      then record a { dim1 = bounds l1 h1 }
      else record a { dim1 = bounds l1 h1; dim2 = no_dim; dim3 = no_dim; dim4 = no_dim }

  unfoldable pub redim1 : A → ℤ → ℤ → Array A → Array A
  unfolding redim dims1
  redim1 v l1 h1 a = redim v (dims1 l1 h1 a)

  unfoldable pub dims2 : ℤ → ℤ → ℤ → ℤ → Array A → Array A
  dims2 l1 h1 l2 h2 a =
      if a.preserve
      then record a { dim1 = bounds l1 h1; dim3 = no_dim; dim4 = no_dim }
      else record a { dim1 = bounds l1 h1; dim2 = bounds l2 h2; dim3 = no_dim; dim4 = no_dim }

  unfoldable pub redim2 : A → ℤ → ℤ → ℤ → ℤ → Array A → Array A
  unfolding redim dims2
  redim2 v l1 h1 l2 h2 a = redim v (dims2 l1 h1 l2 h2 a)

  unfoldable pub dims3 : ℤ → ℤ → ℤ → ℤ → ℤ → ℤ → Array A → Array A
  dims3 l1 h1 l2 h2 l3 h3 a =
      if a.preserve
      then record a { dim1 = bounds l1 h1; dim4 = no_dim }
      else record a { dim1 = bounds l1 h1; dim2 = bounds l2 h2; dim3 = bounds l3 h3; dim4 = no_dim }

  unfoldable pub redim3 : A → ℤ → ℤ → ℤ → ℤ → ℤ → ℤ → Array A → Array A
  unfolding redim dims3
  redim3 v l1 h1 l2 h2 l3 h3 a = redim v (dims3 l1 h1 l2 h2 l3 h3 a)

  unfoldable pub dims4 : ℤ → ℤ → ℤ → ℤ → ℤ → ℤ → ℤ → ℤ → Array A → Array A
  dims4 l1 h1 l2 h2 l3 h3 l4 h4 a =
      if a.preserve then record a { dim1 = bounds l1 h1 } else record a {
        dim1 = bounds l1 h1;
        dim2 = bounds l2 h2;
        dim3 = bounds l3 h3;
        dim4 = bounds l4 h4;
      }

  unfoldable pub redim4 : A → ℤ → ℤ → ℤ → ℤ → ℤ → ℤ → ℤ → ℤ → Array A → Array A
  unfolding redim dims4
  redim4 v l1 h1 l2 h2 l3 h3 l4 h4 a = redim v (dims4 l1 h1 l2 h2 l3 h3 l4 h4 a)

  -- The constructors: an empty vector whose `preserve` is off, and then a `redim`.
  abbrev pub blank : Array A
  blank = record {
    preserve = false;
    items = [];
    dim1 = no_dim;
    dim2 = no_dim;
    dim3 = no_dim;
    dim4 = no_dim;
  }

  unfoldable pub array : A → Array A
  array v = redim1 v (pos 0) (pos 1) blank

  unfoldable pub array1 : A → ℤ → ℤ → Array A
  array1 v l1 h1 = redim1 v l1 h1 blank

  unfoldable pub array2 : A → ℤ → ℤ → ℤ → ℤ → Array A
  array2 v l1 h1 l2 h2 = redim2 v l1 h1 l2 h2 blank

  unfoldable pub array3 : A → ℤ → ℤ → ℤ → ℤ → ℤ → ℤ → Array A
  array3 v l1 h1 l2 h2 l3 h3 = redim3 v l1 h1 l2 h2 l3 h3 blank

  unfoldable pub array4 : A → ℤ → ℤ → ℤ → ℤ → ℤ → ℤ → ℤ → ℤ → Array A
  array4 v l1 h1 l2 h2 l3 h3 l4 h4 = redim4 v l1 h1 l2 h2 l3 h3 l4 h4 blank

  -- `lbound` and `ubound` of the first dimension.
  abbrev pub lbound : Array A → ℤ
  lbound a = a.dim1.lo

  abbrev pub ubound : Array A → ℤ
  ubound a = a.dim1.hi

  -- `at`: an `int` index is taken as a `size_t`.
  unfoldable pub at : List A → ℤ → Outcome A
  at xs i = elim (get_elem? xs (to_size i)) [ some x ↦ ok x | none ↦ throws out_of_range ]

  unfoldable pub set_at : List A → ℤ → A → Outcome (List A)
  set_at xs i v =
      if ltb (to_size i) (length xs) then ok (set xs (to_size i) v) else throws out_of_range

  -- The offsets of `operator()`, by the number of indices.
  unfoldable pub offset1 : Array A → ℤ → ℤ
  offset1 a i1 = i1 -ℤ a.dim1.lo

  unfoldable pub offset2 : Array A → ℤ → ℤ → ℤ
  offset2 a i1 i2 = (i1 -ℤ a.dim1.lo) *ℤ a.dim2.d +ℤ (i2 -ℤ a.dim2.lo)

  unfoldable pub offset3 : Array A → ℤ → ℤ → ℤ → ℤ
  offset3 a i1 i2 i3 =
      (i1 -ℤ a.dim1.lo) *ℤ a.dim2.d *ℤ a.dim3.d
      +ℤ (i2 -ℤ a.dim2.lo) *ℤ a.dim3.d
      +ℤ (i3 -ℤ a.dim3.lo)

  unfoldable pub offset4 : Array A → ℤ → ℤ → ℤ → ℤ → ℤ
  offset4 a i1 i2 i3 i4 =
      (i1 -ℤ a.dim1.lo) *ℤ a.dim2.d *ℤ a.dim3.d *ℤ a.dim4.d
      +ℤ (i2 -ℤ a.dim2.lo) *ℤ a.dim3.d *ℤ a.dim4.d
      +ℤ (i3 -ℤ a.dim3.lo) *ℤ a.dim4.d
      +ℤ (i4 -ℤ a.dim4.lo)

  -- Reading and writing through the reference that `operator()` returns.
  unfoldable pub get : Array A → ℤ → Outcome A
  get a i1 = at a.items (offset1 a i1)

  unfoldable pub put : Array A → ℤ → A → Outcome (Array A)
  unfolding set_at
  put a i1 v = do items' ← set_at a.items (offset1 a i1) v; ok (record a { items = items' })

  unfoldable pub get2 : Array A → ℤ → ℤ → Outcome A
  get2 a i1 i2 = at a.items (offset2 a i1 i2)

  unfoldable pub put2 : Array A → ℤ → ℤ → A → Outcome (Array A)
  unfolding set_at
  put2 a i1 i2 v = do items' ← set_at a.items (offset2 a i1 i2) v; ok (record a { items = items' })

  unfoldable pub get3 : Array A → ℤ → ℤ → ℤ → Outcome A
  get3 a i1 i2 i3 = at a.items (offset3 a i1 i2 i3)

  unfoldable pub put3 : Array A → ℤ → ℤ → ℤ → A → Outcome (Array A)
  unfolding set_at
  put3 a i1 i2 i3 v = do
    items' ← set_at a.items (offset3 a i1 i2 i3) v
    ok (record a { items = items' })

  unfoldable pub get4 : Array A → ℤ → ℤ → ℤ → ℤ → Outcome A
  get4 a i1 i2 i3 i4 = at a.items (offset4 a i1 i2 i3 i4)

  unfoldable pub put4 : Array A → ℤ → ℤ → ℤ → ℤ → A → Outcome (Array A)
  unfolding set_at
  put4 a i1 i2 i3 i4 v = do
    items' ← set_at a.items (offset4 a i1 i2 i3 i4) v
    ok (record a { items = items' })
