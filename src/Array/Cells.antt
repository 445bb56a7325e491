-- ===== src/Array/Cells.antt =====
-- The cells of an array with four dimensions: what `operator()` reads after it was written through.
use kaya_basic.Base.{
  ℕ, ◌<◌, subst, ◌^◌, ◌≡◌, ◌≢◌, refl, sym, ap, ◌∙◌, arith, Bool, true, false, Bool-cases, inl, inr,
  ◌&&◌, ◌==◌, if◌then◌else◌, List, length, set, get_elem?, get_elem?-set_self, get_elem?-set_ne,
  some, ok, ◌>>=◌, ◌%◌, Outcome,
}
use kaya_basic.Cpp.Int.{pos, pos_part, ◌+ℤ◌}
use kaya_basic.Array.{Array, at, set_at, offset4, get4, put4}
use kaya_basic.Array.Redim.{HasDims, count}
use kaya_basic.Array.Index.{Inside, at-ok, offset4_at, offset4-injective, offset4-Inside}

module _ {A : Type 0} where
  -- `a(i1, i2, i3, i4)` at the cell `x`, `y`, `z` and `w` behind the lower bounds.
  abbrev pub read_cell : Array A → ℕ → ℕ → ℕ → ℕ → Outcome A
  read_cell a x y z w =
      get4 a (a.dim1.lo +ℤ pos x) (a.dim2.lo +ℤ pos y) (a.dim3.lo +ℤ pos z) (a.dim4.lo +ℤ pos w)

  abbrev pub write_cell : Array A → ℕ → ℕ → ℕ → ℕ → A → Outcome (Array A)
  write_cell a x y z w v =
      put4 a (a.dim1.lo +ℤ pos x) (a.dim2.lo +ℤ pos y) (a.dim3.lo +ℤ pos z) (a.dim4.lo +ℤ pos w) v

  set_at-set :
      (xs : List A) (i : ℕ) (v : A)
      → i < length xs
      → i < 2 ^ 63
      → set_at xs (pos i) v ≡ ok (set xs i v)
  unfolding set_at
  set_at-set xs i v h b = ground arith

  at_same :
      (xs ys : List A) (j : ℕ)
      → j < 2 ^ 63
      → get_elem? xs j ≡ get_elem? ys j
      → at xs (pos j) ≡ at ys (pos j)
  unfolding at
  at_same xs ys j b e =
      let same : j ≡ j % 2 ^ 64 = omega arith in
      rw (at, subst (λ k. get_elem? xs k ≡ get_elem? ys k) same e) refl

  at-set_self :
      (xs : List A) (i : ℕ) (v : A) → i < length xs → i < 2 ^ 63 → at (set xs i v) (pos i) ≡ ok v
  at-set_self xs i v h b =
      let same : i ≡ i % 2 ^ 64 = omega arith in
      at-ok (set xs i v) i v
        (subst (λ k. get_elem? (set xs i v) k ≡ some v) same (get_elem?-set_self xs i v h))

  at-set_ne :
      (xs : List A) (i j : ℕ) (v : A) → j < 2 ^ 63 → i ≢ j → at (set xs i v) (pos j) ≡ at xs (pos j)
  at-set_ne xs i j v b ne = at_same (set xs i v) xs j b (get_elem?-set_ne xs v ne)

  offset4-items :
      (a : Array A) (xs : List A) (x y z w : ℕ)
      → offset4_at (record a { items = xs }) x y z w ≡ offset4_at a x y z w
  unfolding offset4
  offset4-items a xs x y z w = refl

-- Whether two cells are one.
abbrev pub same_cell : ℕ → ℕ → ℕ → ℕ → ℕ → ℕ → ℕ → ℕ → Bool
same_cell x y z w x' y' z' w' = x == x' && y == y' && z == z' && w == w'

same_cell-true :
    (x y z w x' y' z' w' : ℕ)
    → same_cell x y z w x' y' z' w' ≡ true
    → (x ≡ x') × (y ≡ y') × (z ≡ z') × (w ≡ w')
same_cell-true x y z w x' y' z' w' e = ground arith

module _ {A : Type 0} (a : Array A) (h : HasDims a) (full : length a.items ≡ count a)
    (small : count a < 2 ^ 63) where
  write_cell-set :
      (x y z w i : ℕ) (v : A)
      → offset4_at a x y z w ≡ pos i
      → i < count a
      → write_cell a x y z w v ≡ ok (record a { items = set a.items i v })
  unfolding put4
  write_cell-set x y z w i v e lt = rw (e, set_at-set a.items i v (omega arith) (omega arith)) refl

  read_cell-set :
      (x y z w j : ℕ) (xs : List A)
      → offset4_at a x y z w ≡ pos j
      → read_cell (record a { items = xs }) x y z w ≡ at xs (pos j)
  unfolding get4
  read_cell-set x y z w j xs e = rw (offset4-items a xs x y z w, e) refl

  read_cell-at :
      (x y z w j : ℕ) → offset4_at a x y z w ≡ pos j → read_cell a x y z w ≡ at a.items (pos j)
  unfolding get4
  read_cell-at x y z w j e = rw e refl

  same-offset :
      (x y z w x' y' z' w' : ℕ)
      → same_cell x y z w x' y' z' w' ≡ true
      → offset4_at a x y z w ≡ offset4_at a x' y' z' w'
  same-offset x y z w x' y' z' w' e =
      let (ex, ey, ez, ew) = same_cell-true x y z w x' y' z' w' e in rw (ex, ey, ez, ew) refl

  other-offset :
      (x y z w x' y' z' w' : ℕ)
      → Inside a x y z w
      → Inside a x' y' z' w'
      → same_cell x y z w x' y' z' w' ≡ false
      → offset4_at a x y z w ≢ offset4_at a x' y' z' w'
  other-offset x y z w x' y' z' w' p q e f =
      let (ex, ey, ez, ew) = offset4-injective a h x y z w x' y' z' w' p q f in ground arith

  -- In an array with as many items as its dimensions say, fewer than 2 ^ 63, writing a cell inside
  -- the dimensions does not throw; from then on that cell reads what was written, and each other
  -- cell what it read before.
  pub get4-put4 :
      (x y z w x' y' z' w' : ℕ) (v : A)
      → Inside a x y z w
      → Inside a x' y' z' w'
      → (do a' ← write_cell a x y z w v; read_cell a' x' y' z' w')
        ≡ (if same_cell x y z w x' y' z' w' then ok v else read_cell a x' y' z' w')
  get4-put4 x y z w x' y' z' w' v p q =
      let (i, at_i, lt_i) = offset4-Inside a h x y z w p in
      let (j, at_j, lt_j) = offset4-Inside a h x' y' z' w' q in
      rw
        (
          write_cell-set x y z w i v at_i lt_i,
          read_cell-set x' y' z' w' j (set a.items i v) at_j,
          read_cell-at x' y' z' w' j at_j,
        )
        (elim (Bool-cases (same_cell x y z w x' y' z' w')) [
          | inl e ↦
              let one : i ≡ j = ap pos_part (sym at_i ∙ same-offset x y z w x' y' z' w' e ∙ at_j) in
              rw (e, sym one) (at-set_self a.items i v (omega arith) (omega arith))
          | inr e ↦ rw e (
              at-set_ne a.items i j v (omega arith) (λ (ij : i ≡ j).
                other-offset x y z w x' y' z' w' p q e (at_i ∙ ap pos ij ∙ sym at_j)))
        ])
