-- ===== src/Array/Checked/Redims.antt =====
-- `redim` with four pairs of bounds in the range of `int`, and the indexing behind it.
use kaya_basic.Base.{
  ℕ, ◌*◌, ◌≤◌, ◌<◌, ◌^◌, ◌≡◌, refl, arith, if◌then◌else◌, Outcome, ok, ◌>>=◌, Bool-cases, inl, inr,
  [],
}
use kaya_basic.Cpp.Int.{ℤ, pos, pos_part, ◌+ℤ◌}
use kaya_basic.Cpp.Word.{to_size}
use kaya_basic.Array.{Array, bounds, resize, redim, redim4, dims4, offset4}
use kaya_basic.Array.Redim.{HasDims, count, extent, bounds-range, dims4-HasDims, redim4-IsSound}
use kaya_basic.Array.Index.{extent_pos, Inside}
use kaya_basic.Array.Checked.{
  bounds_int, bounds_int-bounds, size_int, size_int-count, offset4_int, offset4_int-Inside,
  extent-pos, mul-le,
}

module _ {A : Type 0} where
  -- `redim()`
  unfoldable pub redim_int : A → Array A → Outcome (Array A)
  redim_int v a = do
    n ← size_int a
    let kept = if a.preserve then a.items else [] in
        ok (record a { items = resize (to_size n) v kept })

  -- What the overload with four pairs does to the dimensions before it calls `redim()`.
  unfoldable pub dims4_int : ℤ → ℤ → ℤ → ℤ → ℤ → ℤ → ℤ → ℤ → Array A → Outcome (Array A)
  dims4_int l1 h1 l2 h2 l3 h3 l4 h4 a =
      if a.preserve then (do d1 ← bounds_int l1 h1; ok (record a { dim1 = d1 })) else (do
        d1 ← bounds_int l1 h1
        d2 ← bounds_int l2 h2
        d3 ← bounds_int l3 h3
        d4 ← bounds_int l4 h4
        ok (record a { dim1 = d1; dim2 = d2; dim3 = d3; dim4 = d4 }))

  unfoldable pub redim4_int : A → ℤ → ℤ → ℤ → ℤ → ℤ → ℤ → ℤ → ℤ → Array A → Outcome (Array A)
  redim4_int v l1 h1 l2 h2 l3 h3 l4 h4 a = do b ← dims4_int l1 h1 l2 h2 l3 h3 l4 h4 a; redim_int v b

  pub redim_int-redim :
      (v : A) (a : Array A) → HasDims a → count a < 2 ^ 31 → redim_int v a ≡ ok (redim v a)
  unfolding redim_int redim
  redim_int-redim v a h b = rw (size_int-count a h b) refl

-- No factor of a product of four is larger than the product, where none is 0.
pub factors-le :
    (m n k j : ℕ)
    → 0 < m
    → 0 < n
    → 0 < k
    → 0 < j
    → (m ≤ m * n * k * j) × (n ≤ m * n * k * j) × (k ≤ m * n * k * j) × (j ≤ m * n * k * j)
factors-le m n k j hm hn hk hj =
    let mn = mul-le m n hn in
    let nm = mul-le n m hm in
    let mnk = mul-le (m * n) k hk in
    let knm = mul-le k (m * n) (omega arith) in
    let all = mul-le (m * n * k) j hj in
    let last = mul-le j (m * n * k) (omega arith) in
    (omega arith, omega arith, omega arith, omega arith)

pos-extent : (l h : ℤ) → extent (bounds l h).d ≡ pos_part (bounds l h).d
pos-extent l h = let (_, p, _) = bounds-range l h in extent_pos (bounds l h).d p

module _ {A : Type 0} (l1 h1 l2 h2 l3 h3 l4 h4 : ℤ) (a : Array A) where
  all_bounds :
      let n1 = pos_part (bounds l1 h1).d in
      let n2 = pos_part (bounds l2 h2).d in
      let n3 = pos_part (bounds l3 h3).d in
      let n4 = pos_part (bounds l4 h4).d in
      n1 * extent (bounds l2 h2).d * extent (bounds l3 h3).d * extent (bounds l4 h4).d < 2 ^ 31
      → (n1 < 2 ^ 31) × (n2 < 2 ^ 31) × (n3 < 2 ^ 31) × (n4 < 2 ^ 31)
  all_bounds b =
      let (_, p1, _) = bounds-range l1 h1 in
      let (_, p2, _) = bounds-range l2 h2 in
      let (_, p3, _) = bounds-range l3 h3 in
      let (_, p4, _) = bounds-range l4 h4 in
      let (f1, f2, f3, f4) = factors-le _ _ _ _ p1 p2 p3 p4 in
      let b' = rw (pos-extent l2 h2, pos-extent l3 h3, pos-extent l4 h4) at b in
      (omega arith, omega arith, omega arith, omega arith)

  dims4_int-dims4 :
      count (dims4 l1 h1 l2 h2 l3 h3 l4 h4 a) < 2 ^ 31
      → dims4_int l1 h1 l2 h2 l3 h3 l4 h4 a ≡ ok (dims4 l1 h1 l2 h2 l3 h3 l4 h4 a)
  unfolding dims4_int dims4
  dims4_int-dims4 b = elim (Bool-cases a.preserve) [
    | inl e ↦
        let (_, p1, _) = bounds-range l1 h1 in
        let (f1, _, _, _) =
          factors-le (pos_part (bounds l1 h1).d) _ _ _ p1 (extent-pos a.dim2.d)
            (extent-pos a.dim3.d) (extent-pos a.dim4.d) in
        let b' = rw e at b in rw (e, bounds_int-bounds l1 h1 (omega arith)) refl
    | inr e ↦
        let (s1, s2, s3, s4) = all_bounds (rw e at b) in
        rw
          (
            e,
            bounds_int-bounds l1 h1 s1,
            bounds_int-bounds l2 h2 s2,
            bounds_int-bounds l3 h3 s3,
            bounds_int-bounds l4 h4 s4,
          )
          refl
  ]

  redim4_int-redim4 :
      (v : A)
      → HasDims a
      → count (redim4 v l1 h1 l2 h2 l3 h3 l4 h4 a) < 2 ^ 31
      → redim4_int v l1 h1 l2 h2 l3 h3 l4 h4 a ≡ ok (redim4 v l1 h1 l2 h2 l3 h3 l4 h4 a)
  unfolding redim4_int redim4
  redim4_int-redim4 v h b = rw (dims4_int-dims4 b) (
      redim_int-redim v (dims4 l1 h1 l2 h2 l3 h3 l4 h4 a)
        (dims4-HasDims l1 h1 l2 h2 l3 h3 l4 h4 a h) b)

  abbrev pub made : A → Array A
  made v = redim4 v l1 h1 l2 h2 l3 h3 l4 h4 a

  -- If `redim` with four pairs of bounds, in whatever order each pair is, leaves an array with
  -- proper dimensions with fewer items than an `int` counts, no difference, product or sum that it
  -- computes overflows, and none that `operator()` computes from then on for indices inside the
  -- new dimensions: in the arithmetic of `int` both have the results of the exact one.
  pub redim4_int-Inside :
      (v : A)
      → HasDims a
      → (x y z w : ℕ) → count (made v) < 2 ^ 31
      → Inside (made v) x y z w
      → (redim4_int v l1 h1 l2 h2 l3 h3 l4 h4 a ≡ ok (made v))
        × (offset4_int
              (made v)
              ((made v).dim1.lo +ℤ pos x)
              ((made v).dim2.lo +ℤ pos y)
              ((made v).dim3.lo +ℤ pos z)
              ((made v).dim4.lo +ℤ pos w)
            ≡ ok (
                offset4
                  (made v)
                  ((made v).dim1.lo +ℤ pos x)
                  ((made v).dim2.lo +ℤ pos y)
                  ((made v).dim3.lo +ℤ pos z)
                  ((made v).dim4.lo +ℤ pos w)))
  redim4_int-Inside v h x y z w b p =
      let sound = redim4-IsSound v l1 h1 l2 h2 l3 h3 l4 h4 a h (omega arith) in
      (redim4_int-redim4 v h b, offset4_int-Inside (made v) sound.dims x y z w p b)
