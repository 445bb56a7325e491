-- ===== src/Array/Checked/Matrix.antt =====
-- `redim` with two pairs of bounds and the indexing behind it, in the range of `int`.
use kaya_basic.Base.{◌*◌, ◌<◌, ◌^◌, ◌≡◌, arith, if◌then◌else◌, Outcome, ok, ◌>>=◌}
use kaya_basic.Cpp.Int.{ℤ, pos_part}
use kaya_basic.Cpp.Checked.{add_int, sub_int, mul_int}
use kaya_basic.Array.{Array, no_dim, at, blank, bounds, redim2, dims2}
use kaya_basic.Array.Redim.{HasDims, bounds-range, dims2-HasDims}
use kaya_basic.Array.Index.{extent_pos}
use kaya_basic.Array.Checked.{bounds_int, bounds_int-bounds}
use kaya_basic.Array.Checked.Redims.{redim_int, redim_int-redim, factors-le}

module _ {A : Type 0} where
  unfoldable pub dims2_int : ℤ → ℤ → ℤ → ℤ → Array A → Outcome (Array A)
  dims2_int l1 h1 l2 h2 a =
      if a.preserve
      then (do d1 ← bounds_int l1 h1; ok (record a { dim1 = d1; dim3 = no_dim; dim4 = no_dim }))
      else (do
        d1 ← bounds_int l1 h1
        d2 ← bounds_int l2 h2
        ok (record a { dim1 = d1; dim2 = d2; dim3 = no_dim; dim4 = no_dim }))

  unfoldable pub redim2_int : A → ℤ → ℤ → ℤ → ℤ → Array A → Outcome (Array A)
  redim2_int v l1 h1 l2 h2 a = do b ← dims2_int l1 h1 l2 h2 a; redim_int v b

  unfoldable pub offset2_int : Array A → ℤ → ℤ → Outcome ℤ
  offset2_int a i1 i2 = do
    x ← sub_int i1 a.dim1.lo
    x2 ← mul_int x a.dim2.d
    y ← sub_int i2 a.dim2.lo
    add_int x2 y

  unfoldable pub get2_int : Array A → ℤ → ℤ → Outcome A
  get2_int a i1 i2 = do i ← offset2_int a i1 i2; at a.items i

  blank-HasDims : HasDims (blank {A = A})
  blank-HasDims = ground arith

  -- A new array with two dimensions, whose items an `int` counts.
  pub redim2_int-new :
      (v : A) (l1 h1 l2 h2 : ℤ)
      → pos_part (bounds l1 h1).d * pos_part (bounds l2 h2).d < 2 ^ 31
      → redim2_int v l1 h1 l2 h2 blank ≡ ok (redim2 v l1 h1 l2 h2 blank)
  unfolding redim2_int redim2 dims2_int dims2
  redim2_int-new v l1 h1 l2 h2 b =
      let (_, p1, _) = bounds-range l1 h1 in
      let (_, p2, _) = bounds-range l2 h2 in
      let (f1, f2, _, _) =
        factors-le (pos_part (bounds l1 h1).d) (pos_part (bounds l2 h2).d) 1 1 p1 p2 (omega arith)
          (omega arith) in
      let same = extent_pos (bounds l2 h2).d p2 in
      rw (bounds_int-bounds l1 h1 (omega arith), bounds_int-bounds l2 h2 (omega arith))
        (redim_int-redim v (dims2 l1 h1 l2 h2 blank) (dims2-HasDims l1 h1 l2 h2 blank blank-HasDims)
          (rw same (omega arith)))
