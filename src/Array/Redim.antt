-- ===== src/Array/Redim.antt =====
-- The invariant of `array<T>`, and that every `redim` sets it up.
use kaya_basic.Base.{
  ◌≢◌, ℕ, ◌-◌, ◌*◌, ◌<◌, ◌^◌, ◌≡◌, ◌⊎◌, refl, ◌∙◌, arith, List, ◌==◌, if◌then◌else◌, length, take,
  replicate, length-append, length-take, length-replicate,
}
use kaya_basic.Cpp.Int.{◌-ℤ◌, ℤ, pos, negsuc, pos_part, neg_part, ◌+ℤ◌, ◌*ℤ◌, pos-mul-pos}
use kaya_basic.Array.{
  Array, bounds, is_used, size, resize, redim, redim1, redim2, redim3, redim4, dims1, dims2, dims3,
  dims4,
}

-- How often a dimension multiplies the size.
abbrev pub extent : ℤ → ℕ
extent d = if pos_part d == 0 then 1 else pos_part d

mul_dim :
    (z d : ℤ) (n : ℕ)
    → neg_part d ≡ 0
    → z ≡ pos n
    → (if is_used d then z *ℤ d else z) ≡ pos (n * extent d)
mul_dim z (negsuc d) n h e = absurd (omega arith)
mul_dim z (pos d) n h e = rw (e, pos-mul-pos n d) (ground arith)

pub is_pos : (z : ℤ) → neg_part z ≡ 0 → z ≡ pos (pos_part z)
is_pos (pos n) h = refl
is_pos (negsuc n) h = absurd (omega arith)

pub bounds-from_zero :
    (n : ℕ)
    → n ≢ 0
    → bounds (pos 0) (pos (n - 1)) ≡ record { lo = pos 0; hi = pos (n - 1); d = pos n }
unfolding bounds ◌-ℤ◌ ◌+ℤ◌
bounds-from_zero n ne = ground arith

pub bounds-range :
    (l h : ℤ)
    → (neg_part (bounds l h).d ≡ 0)
      × (0 < pos_part (bounds l h).d)
      × ((bounds l h).hi +ℤ pos 1 ≡ (bounds l h).lo +ℤ (bounds l h).d)
unfolding bounds
bounds-range l h = ground (arith)

module _ {A : Type 0} where
  abbrev pub count : Array A → ℕ
  count a = pos_part a.dim1.d * extent a.dim2.d * extent a.dim3.d * extent a.dim4.d

  -- Without a second dimension there is no third or fourth one.
  abbrev pub HasShape : Array A → Type 0
  HasShape a =
      (pos_part a.dim2.d ≡ 0) × (pos_part a.dim3.d ≡ 0) × (pos_part a.dim4.d ≡ 0)
      ⊎ (0 < pos_part a.dim2.d)

  pub record HasDims (a : Array A) : Type 0 where
    pub count1 : neg_part a.dim1.d ≡ 0
    pub count2 : neg_part a.dim2.d ≡ 0
    pub count3 : neg_part a.dim3.d ≡ 0
    pub count4 : neg_part a.dim4.d ≡ 0
    pub shape : HasShape a

  -- The items are as many as the dimensions say, and the first dimension's bounds fit its count.
  pub record IsSound (a : Array A) : Type 0 where
    pub dims : HasDims a
    pub range : a.dim1.hi +ℤ pos 1 ≡ a.dim1.lo +ℤ a.dim1.d
    pub items : length a.items ≡ count a

  pub size-count : (a : Array A) → HasDims a → size a ≡ pos (count a)
  unfolding size
  size-count a h =
      mul_dim _ a.dim4.d (pos_part a.dim1.d * extent a.dim2.d * extent a.dim3.d) h.count4 (
        mul_dim _ a.dim3.d (pos_part a.dim1.d * extent a.dim2.d) h.count3
          (mul_dim a.dim1.d a.dim2.d (pos_part a.dim1.d) h.count2 (is_pos a.dim1.d h.count1)))

  pub length-resize : (n : ℕ) (v : A) (xs : List A) → length (resize n v xs) ≡ n
  unfolding resize
  length-resize n v xs = omega (
    arith,
    length-append (take n xs) (replicate (n - length xs) v),
    length-take n xs,
    length-replicate (n - length xs) v,
  )

  redim-IsSound :
      (v : A) (a : Array A)
      → HasDims a
      → a.dim1.hi +ℤ pos 1 ≡ a.dim1.lo +ℤ a.dim1.d
      → count a < 2 ^ 63
      → IsSound (redim v a)
  unfolding redim
  redim-IsSound v a h r b = record {
    dims = record {
      count1 = h.count1;
      count2 = h.count2;
      count3 = h.count3;
      count4 = h.count4;
      shape = h.shape;
    };
    range = r;
    items = length-resize _ v _ ∙ rw (size-count a h) (omega arith);
  }

  dims1-HasDims : (l1 h1 : ℤ) (a : Array A) → HasDims a → HasDims (dims1 l1 h1 a)
  unfolding dims1
  dims1-HasDims l1 h1 a h = ground (arith, bounds-range l1 h1)

  pub dims2-HasDims : (l1 h1 l2 h2 : ℤ) (a : Array A) → HasDims a → HasDims (dims2 l1 h1 l2 h2 a)
  unfolding dims2
  dims2-HasDims l1 h1 l2 h2 a h = ground (arith, bounds-range l1 h1, bounds-range l2 h2)

  dims3-HasDims :
      (l1 h1 l2 h2 l3 h3 : ℤ) (a : Array A) → HasDims a → HasDims (dims3 l1 h1 l2 h2 l3 h3 a)
  unfolding dims3
  dims3-HasDims l1 h1 l2 h2 l3 h3 a h =
      ground (arith, bounds-range l1 h1, bounds-range l2 h2, bounds-range l3 h3)

  pub dims4-HasDims :
      (l1 h1 l2 h2 l3 h3 l4 h4 : ℤ) (a : Array A)
      → HasDims a
      → HasDims (dims4 l1 h1 l2 h2 l3 h3 l4 h4 a)
  unfolding dims4
  dims4-HasDims l1 h1 l2 h2 l3 h3 l4 h4 a h =
      ground (arith, bounds-range l1 h1, bounds-range l2 h2, bounds-range l3 h3, bounds-range l4 h4)

  -- `redim` with 1 pair of bounds, keeping the items or not, of an array with proper dimensions
  -- leaves a sound array, while the size is one that a `Long` holds.
  pub redim1-IsSound :
      (v : A) (l1 h1 : ℤ) (a : Array A)
      → HasDims a
      → count (redim1 v l1 h1 a) < 2 ^ 63
      → IsSound (redim1 v l1 h1 a)
  unfolding redim1
  redim1-IsSound v l1 h1 a h b =
      redim-IsSound v (dims1 l1 h1 a) (dims1-HasDims l1 h1 a h) (ground (arith, bounds-range l1 h1))
        b

  -- `redim` with 2 pairs of bounds, keeping the items or not, of an array with proper dimensions
  -- leaves a sound array, while the size is one that a `Long` holds.
  pub redim2-IsSound :
      (v : A) (l1 h1 l2 h2 : ℤ) (a : Array A)
      → HasDims a
      → count (redim2 v l1 h1 l2 h2 a) < 2 ^ 63
      → IsSound (redim2 v l1 h1 l2 h2 a)
  unfolding redim2
  redim2-IsSound v l1 h1 l2 h2 a h b =
      redim-IsSound v (dims2 l1 h1 l2 h2 a) (dims2-HasDims l1 h1 l2 h2 a h)
        (ground (arith, bounds-range l1 h1)) b

  -- `redim` with 3 pairs of bounds, keeping the items or not, of an array with proper dimensions
  -- leaves a sound array, while the size is one that a `Long` holds.
  pub redim3-IsSound :
      (v : A) (l1 h1 l2 h2 l3 h3 : ℤ) (a : Array A)
      → HasDims a
      → count (redim3 v l1 h1 l2 h2 l3 h3 a) < 2 ^ 63
      → IsSound (redim3 v l1 h1 l2 h2 l3 h3 a)
  unfolding redim3
  redim3-IsSound v l1 h1 l2 h2 l3 h3 a h b =
      redim-IsSound v (dims3 l1 h1 l2 h2 l3 h3 a) (dims3-HasDims l1 h1 l2 h2 l3 h3 a h)
        (ground (arith, bounds-range l1 h1)) b

  -- `redim` with 4 pairs of bounds, keeping the items or not, of an array with proper dimensions
  -- leaves a sound array, while the size is one that a `Long` holds.
  pub redim4-IsSound :
      (v : A) (l1 h1 l2 h2 l3 h3 l4 h4 : ℤ) (a : Array A)
      → HasDims a
      → count (redim4 v l1 h1 l2 h2 l3 h3 l4 h4 a) < 2 ^ 63
      → IsSound (redim4 v l1 h1 l2 h2 l3 h3 l4 h4 a)
  unfolding redim4
  redim4-IsSound v l1 h1 l2 h2 l3 h3 l4 h4 a h b =
      redim-IsSound v (dims4 l1 h1 l2 h2 l3 h3 l4 h4 a) (dims4-HasDims l1 h1 l2 h2 l3 h3 l4 h4 a h)
        (ground (arith, bounds-range l1 h1)) b
