-- ===== src/Array/Index.antt =====
-- The offsets of `operator()`: row by row, inside the items, and each its own.
use kaya_basic.Base.{
  ℕ, zero, suc, ◌+◌, ◌*◌, ◌≤◌, ◌<◌, ◌^◌, ◌≡◌, refl, sym, subst, ap, ◌∙◌, arith, length, dec_lt, ok,
  List, [], ◌∷◌, get_elem?, some, ◌%◌,
}
use kaya_basic.Cpp.Int.{
  ℤ, pos, negsuc, pos_part, neg_part, ◌+ℤ◌, ◌-ℤ◌, ◌*ℤ◌, pos-mul-pos, pos-add-pos, int_laws,
}
use kaya_basic.Array.{Array, offset2, offset3, offset4, at, get4}
use kaya_basic.Array.Redim.{HasDims, count, extent}

pub index-sub : (lo : ℤ) (x : ℕ) → lo +ℤ pos x -ℤ lo ≡ pos x
index-sub lo x = omega int_laws

row2 : (x y : ℕ) (d2 : ℤ) → neg_part d2 ≡ 0 → pos x *ℤ d2 +ℤ pos y ≡ pos (x * pos_part d2 + y)
row2 x y (negsuc n) h = absurd (omega arith)
row2 x y (pos n) h = simp (pos-mul-pos, pos-add-pos)

row3 :
    (x y z : ℕ) (d2 d3 : ℤ)
    → neg_part d2 ≡ 0
    → neg_part d3 ≡ 0
    → pos x *ℤ d2 *ℤ d3 +ℤ pos y *ℤ d3 +ℤ pos z
      ≡ pos (x * pos_part d2 * pos_part d3 + y * pos_part d3 + z)
row3 x y z (pos n) (pos m) h k = simp (pos-mul-pos, pos-add-pos)
row3 x y z (negsuc n) _ h k = absurd (omega arith)
row3 x y z (pos n) (negsuc m) h k = absurd (omega arith)

row4 :
    (x y z w : ℕ) (d2 d3 d4 : ℤ)
    → neg_part d2 ≡ 0
    → neg_part d3 ≡ 0
    → neg_part d4 ≡ 0
    → pos x *ℤ d2 *ℤ d3 *ℤ d4 +ℤ pos y *ℤ d3 *ℤ d4 +ℤ pos z *ℤ d4 +ℤ pos w
      ≡ pos (
          x * pos_part d2 * pos_part d3 * pos_part d4
          + y * pos_part d3 * pos_part d4
          + z * pos_part d4
          + w)
row4 x y z w (pos n) (pos m) (pos k) _ _ _ = simp (pos-mul-pos, pos-add-pos)
row4 x y z w (negsuc n) _ _ h _ _ = absurd (omega arith)
row4 x y z w (pos n) (negsuc m) _ _ h _ = absurd (omega arith)
row4 x y z w (pos n) (pos m) (negsuc k) _ _ h = absurd (omega arith)

module _ {A : Type 0} (a : Array A) (h : HasDims a) where
  -- The offset of the item `x` rows and `y` columns behind the lower bounds.
  pub offset2-row :
      (x y : ℕ)
      → offset2 a (a.dim1.lo +ℤ pos x) (a.dim2.lo +ℤ pos y) ≡ pos (x * pos_part a.dim2.d + y)
  unfolding offset2
  offset2-row x y = rw (index-sub a.dim1.lo x, index-sub a.dim2.lo y) (row2 x y a.dim2.d h.count2)

  pub offset3-row :
      (x y z : ℕ)
      → offset3 a (a.dim1.lo +ℤ pos x) (a.dim2.lo +ℤ pos y) (a.dim3.lo +ℤ pos z)
        ≡ pos (x * pos_part a.dim2.d * pos_part a.dim3.d + y * pos_part a.dim3.d + z)
  unfolding offset3
  offset3-row x y z =
      rw (index-sub a.dim1.lo x, index-sub a.dim2.lo y, index-sub a.dim3.lo z)
        (row3 x y z a.dim2.d a.dim3.d h.count2 h.count3)

  -- The offset under four indices counts rows of rows, with the last index as the fastest.
  pub offset4-row :
      (x y z w : ℕ)
      → offset4 a
          (a.dim1.lo +ℤ pos x)
          (a.dim2.lo +ℤ pos y)
          (a.dim3.lo +ℤ pos z)
          (a.dim4.lo +ℤ pos w)
        ≡ pos (
            x * pos_part a.dim2.d * pos_part a.dim3.d * pos_part a.dim4.d
            + y * pos_part a.dim3.d * pos_part a.dim4.d
            + z * pos_part a.dim4.d
            + w)
  unfolding offset4
  offset4-row x y z w =
      rw
        (index-sub a.dim1.lo x, index-sub a.dim2.lo y, index-sub a.dim3.lo z, index-sub a.dim4.lo w)
        (row4 x y z w a.dim2.d a.dim3.d a.dim4.d h.count2 h.count3 h.count4)

row_le : (n x x' : ℕ) → x < x' → x * n + n ≤ x' * n
row_le n x x' h = grind arith

-- A row and a column are read back from `row * width + column`.
pair_injective : (n x y x' y' : ℕ) → y < n → y' < n → x * n + y ≡ x' * n + y' → (x ≡ x') × (y ≡ y')
pair_injective n x y x' y' h k e = elim (dec_lt x x') [
  | yes p ↦ absurd (omega (arith, row_le n x x' p))
  | no p ↦ elim (dec_lt x' x) [
    | yes q ↦ absurd (omega (arith, row_le n x' x q))
    | no q ↦ let same : x ≡ x' = omega arith in (same, omega (arith, ap (λ (t : ℕ). t * n) same))
  ]
]

pub extent_pos : (d : ℤ) → 0 < pos_part d → extent d ≡ pos_part d
extent_pos d h = ground arith

get_elem?_inside :
    {A : Type 0} (xs : List A) (i : ℕ) → i < length xs → (v : A) × (get_elem? xs i ≡ some v)
get_elem?_inside [] i h = absurd (omega arith)
get_elem?_inside (x ∷ xs) zero h = (x, refl)
get_elem?_inside (x ∷ xs) (suc i) h = get_elem?_inside xs i (omega arith)

pub at-ok :
    {A : Type 0} (xs : List A) (i : ℕ) (v : A)
    → get_elem? xs (i % 2 ^ 64) ≡ some v
    → at xs (pos i) ≡ ok v
unfolding at
at-ok xs i v e = ground arith

pub at_inside :
    {A : Type 0} (xs : List A) (i : ℕ)
    → i < length xs
    → i < 2 ^ 63
    → (v : A) × (at xs (pos i) ≡ ok v)
at_inside xs i h b =
    let (v, e) = get_elem?_inside xs i h in
    let same : i ≡ i % 2 ^ 64 = omega arith in
    (v, at-ok xs i v (subst (λ k. get_elem? xs k ≡ some v) same e))

pair_inside : (m n x y : ℕ) → x < m → y < n → x * n + y < m * n
pair_inside m n x y h k = grind arith

pos_injective : {m n : ℕ} → pos m ≡ pos n → m ≡ n
pos_injective e = ap pos_part e

-- Indices that lie inside the four dimensions, counted from the lower bounds.
abbrev pub Inside : {A : Type 0} → Array A → ℕ → ℕ → ℕ → ℕ → Type 0
Inside a x y z w =
    (x < pos_part a.dim1.d)
    × (y < pos_part a.dim2.d)
    × (z < pos_part a.dim3.d)
    × (w < pos_part a.dim4.d)

abbrev pub offset4_at : {A : Type 0} → Array A → ℕ → ℕ → ℕ → ℕ → ℤ
offset4_at a x y z w =
    offset4 a (a.dim1.lo +ℤ pos x) (a.dim2.lo +ℤ pos y) (a.dim3.lo +ℤ pos z) (a.dim4.lo +ℤ pos w)

module _ {A : Type 0} (a : Array A) (h : HasDims a) where
  -- In an array with proper dimensions, two sets of indices inside them that share an offset are
  -- one.
  pub offset4-injective :
      (x y z w x' y' z' w' : ℕ)
      → Inside a x y z w
      → Inside a x' y' z' w'
      → offset4_at a x y z w ≡ offset4_at a x' y' z' w'
      → (x ≡ x') × (y ≡ y') × (z ≡ z') × (w ≡ w')
  offset4-injective x y z w x' y' z' w' (_, p2, p3, p4) (_, q2, q3, q4) e =
      let n2 = pos_part a.dim2.d in
      let n3 = pos_part a.dim3.d in
      let n4 = pos_part a.dim4.d in
      let flat = pos_injective (sym (offset4-row a h x y z w) ∙ e ∙ offset4-row a h x' y' z' w') in
      let (e3, ew) =
        pair_injective n4 ((x * n2 + y) * n3 + z) w ((x' * n2 + y') * n3 + z') w' p4 q4
          (omega arith) in
      let (e2, ez) = pair_injective n3 (x * n2 + y) z (x' * n2 + y') z' p3 q3 e3 in
      let (ex, ey) = pair_injective n2 x y x' y' p2 q2 e2 in (ex, ey, ez, ew)

  -- Indices inside the dimensions have an offset below the number of items.
  pub offset4-Inside :
      (x y z w : ℕ) → Inside a x y z w → (i : ℕ) × (offset4_at a x y z w ≡ pos i) × (i < count a)
  offset4-Inside x y z w (p1, p2, p3, p4) =
      let n1 = pos_part a.dim1.d in
      let n2 = pos_part a.dim2.d in
      let n3 = pos_part a.dim3.d in
      let n4 = pos_part a.dim4.d in
      let in2 = pair_inside n1 n2 x y p1 p2 in
      let in3 = pair_inside (n1 * n2) n3 (x * n2 + y) z in2 p3 in
      let in4 = pair_inside (n1 * n2 * n3) n4 ((x * n2 + y) * n3 + z) w in3 p4 in
      let counted : count a ≡ n1 * n2 * n3 * n4 = rw (
        extent_pos a.dim2.d (omega arith),
        extent_pos a.dim3.d (omega arith),
        extent_pos a.dim4.d (omega arith),
      ) in
      (
        x * n2 * n3 * n4 + y * n3 * n4 + z * n4 + w,
        offset4-row a h x y z w,
        rw counted (omega (arith, in4)),
      )

  -- In an array with as many items as its dimensions say, reading at indices inside them gives an
  -- item: `at` does not throw.
  pub get4-Inside :
      (x y z w : ℕ)
      → Inside a x y z w
      → length a.items ≡ count a
      → count a < 2 ^ 63
      → (v : A) × (get4 a
            (a.dim1.lo +ℤ pos x)
            (a.dim2.lo +ℤ pos y)
            (a.dim3.lo +ℤ pos z)
            (a.dim4.lo +ℤ pos w)
          ≡ ok v)
  unfolding get4
  get4-Inside x y z w p e b =
      let (i, at_i, lt) = offset4-Inside x y z w p in
      rw at_i (at_inside a.items i (omega arith) (omega arith))
