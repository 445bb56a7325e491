-- ===== src/Array/Checked.antt =====
-- The `int` arithmetic of `array<T>` with every overflow an undefined result, as in C++.
pub mod Redims
pub mod Matrix
use kaya_basic.Base.{
  ℕ, zero, suc, ◌+◌, ◌*◌, ◌≤◌, ◌<◌, ◌^◌, ◌≡◌, refl, sym, ap, ◌∙◌, arith, Bool, true, ◌&&◌, leb, ltb,
  if◌then◌else◌, Outcome, ok, undefined, ◌>>=◌,
}
use kaya_basic.Cpp.Int.{
  ℤ, pos, negsuc, pos_part, neg_part, ◌+ℤ◌, ◌-ℤ◌, ◌*ℤ◌, ltb_ℤ, pos-mul-pos, pos-add-pos,
}
use kaya_basic.Cpp.Checked.{in_int, add_int, sub_int, mul_int, in_int-pos, mul_int-pos, add_int-pos}
use kaya_basic.Array.{Dim, Array, bounds, is_used, size, offset4}
use kaya_basic.Array.Redim.{HasDims, count, extent, is_pos, size-count}
use kaya_basic.Array.Index.{index-sub, extent_pos, Inside, offset4-row, offset4-Inside}

-- `dim[n].d = h - l + 1`, behind the swap.
abbrev pub extent_int : ℤ → ℤ → Outcome Dim
extent_int l h = do x ← sub_int h l; d ← add_int x (pos 1); ok (record { lo = l; hi = h; d = d })

unfoldable pub bounds_int : ℤ → ℤ → Outcome Dim
bounds_int l h = if ltb_ℤ h l then extent_int h l else extent_int l h

-- `if (d) ret *= d;`
abbrev pub times_int : ℤ → ℤ → Outcome ℤ
times_int ret d = if is_used d then mul_int ret d else ok ret

module _ {A : Type 0} where
  unfoldable pub size_int : Array A → Outcome ℤ
  size_int a = do
    ret2 ← times_int a.dim1.d a.dim2.d
    ret3 ← times_int ret2 a.dim3.d
    times_int ret3 a.dim4.d

  -- The arithmetic of `operator()` with four indices, in the order of the code.
  unfoldable pub offset4_int : Array A → ℤ → ℤ → ℤ → ℤ → Outcome ℤ
  offset4_int a i1 i2 i3 i4 = do
    x ← sub_int i1 a.dim1.lo
    x2 ← mul_int x a.dim2.d
    x3 ← mul_int x2 a.dim3.d
    x4 ← mul_int x3 a.dim4.d
    y ← sub_int i2 a.dim2.lo
    y3 ← mul_int y a.dim3.d
    y4 ← mul_int y3 a.dim4.d
    z ← sub_int i3 a.dim3.lo
    z4 ← mul_int z a.dim4.d
    w ← sub_int i4 a.dim4.lo
    s ← add_int x4 y4
    t ← add_int s z4
    add_int t w

sub_int-index : (lo : ℤ) (x : ℕ) → x < 2 ^ 31 → sub_int (lo +ℤ pos x) lo ≡ ok (pos x)
sub_int-index lo x b = in_int-pos (lo +ℤ pos x -ℤ lo) x (index-sub lo x) b

-- A factor that is not 0 makes nothing smaller.
pub mul-le : (m n : ℕ) → 0 < n → m ≤ m * n
mul-le m n h = grind arith

-- The count of a dimension overflows only if it is not an `int` itself.
pub bounds_int-bounds :
    (l h : ℤ) → pos_part (bounds l h).d < 2 ^ 31 → bounds_int l h ≡ ok (bounds l h)
unfolding bounds_int bounds in_int ◌-ℤ◌ ◌+ℤ◌
bounds_int-bounds l h b = ground arith

times_int-pos :
    (d : ℤ) (m : ℕ)
    → neg_part d ≡ 0
    → m * extent d < 2 ^ 31
    → times_int (pos m) d ≡ ok (pos (m * extent d))
times_int-pos (negsuc n) m h b = absurd (omega arith)
times_int-pos (pos zero) m h b = ap (λ k. ok (pos k)) (omega arith)
times_int-pos (pos (suc n)) m h b =
    let same = extent_pos (pos (suc n)) (omega arith) in
    let used : is_used (pos (suc n)) ≡ true = ground arith in
    rw (used, same) (mul_int-pos (pos (suc n)) m h (omega (arith, ap (λ k. m * k) same)))

pub extent-pos : (d : ℤ) → 0 < extent d
extent-pos d = ground arith

module _ {A : Type 0} (a : Array A) (h : HasDims a) where
  -- If proper dimensions hold fewer items than an `int` counts, no product of `Size` overflows.
  pub size_int-count : count a < 2 ^ 31 → size_int a ≡ ok (size a)
  unfolding size_int
  size_int-count b =
      let n1 = pos_part a.dim1.d in
      let e2 = extent a.dim2.d in
      let e3 = extent a.dim3.d in
      let e4 = extent a.dim4.d in
      let g3 = mul-le (n1 * e2) e3 (extent-pos a.dim3.d) in
      let g4 = mul-le (n1 * e2 * e3) e4 (extent-pos a.dim4.d) in
      rw
        (
          size-count a h,
          is_pos a.dim1.d h.count1,
          times_int-pos a.dim2.d n1 h.count2 (omega arith),
          times_int-pos a.dim3.d (n1 * e2) h.count3 (omega arith),
          times_int-pos a.dim4.d (n1 * e2 * e3) h.count4 (omega arith),
        )
        refl

  -- In proper dimensions that hold fewer items than an `int` counts, no difference, product or sum
  -- of `operator()` overflows for indices inside them, and it is the offset of the exact
  -- arithmetic.
  pub offset4_int-Inside :
      (x y z w : ℕ)
      → Inside a x y z w
      → count a < 2 ^ 31
      → offset4_int a
          (a.dim1.lo +ℤ pos x)
          (a.dim2.lo +ℤ pos y)
          (a.dim3.lo +ℤ pos z)
          (a.dim4.lo +ℤ pos w)
        ≡ ok (
            offset4 a
              (a.dim1.lo +ℤ pos x)
              (a.dim2.lo +ℤ pos y)
              (a.dim3.lo +ℤ pos z)
              (a.dim4.lo +ℤ pos w))
  unfolding offset4_int
  offset4_int-Inside x y z w p b =
      let (p1, p2, p3, p4) = p in
      let n2 = pos_part a.dim2.d in
      let n3 = pos_part a.dim3.d in
      let n4 = pos_part a.dim4.d in
      let (i, at_i, lt) = offset4-Inside a h x y z w p in
      let row = offset4-row a h x y z w in
      let exact : i ≡ x * n2 * n3 * n4 + y * n3 * n4 + z * n4 + w = ap pos_part (sym at_i ∙ row) in
      let g2 = mul-le x n2 (omega arith) in
      let g3 = mul-le (x * n2) n3 (omega arith) in
      let g4 = mul-le (x * n2 * n3) n4 (omega arith) in
      let k3 = mul-le y n3 (omega arith) in
      let k4 = mul-le (y * n3) n4 (omega arith) in
      let l4 = mul-le z n4 (omega arith) in
      rw
        (
          row,
          sub_int-index a.dim1.lo x (omega arith),
          mul_int-pos a.dim2.d x h.count2 (omega arith),
          mul_int-pos a.dim3.d (x * n2) h.count3 (omega arith),
          mul_int-pos a.dim4.d (x * n2 * n3) h.count4 (omega arith),
          sub_int-index a.dim2.lo y (omega arith),
          mul_int-pos a.dim3.d y h.count3 (omega arith),
          mul_int-pos a.dim4.d (y * n3) h.count4 (omega arith),
          sub_int-index a.dim3.lo z (omega arith),
          mul_int-pos a.dim4.d z h.count4 (omega arith),
          sub_int-index a.dim4.lo w (omega arith),
          add_int-pos (x * n2 * n3 * n4) (y * n3 * n4) (omega arith),
          add_int-pos (x * n2 * n3 * n4 + y * n3 * n4) (z * n4) (omega arith),
          add_int-pos (x * n2 * n3 * n4 + y * n3 * n4 + z * n4) w (omega arith),
        )
        refl
