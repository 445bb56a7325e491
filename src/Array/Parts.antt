-- ===== src/Array/Parts.antt =====
-- An array of 1025 texts that is filled from 0 on and cut down to what it holds.
use kaya_basic.Base.{
  ℕ, zero, suc, ◌+◌, ◌-◌, ◌≤◌, ◌<◌, ◌^◌, ◌%◌, ◌≡◌, refl, sym, ap, ◌∙◌, arith, true, false, List, [],
  ◌∷◌, ◌++◌, length, drop, replicate, length-append, length-replicate, take-append, append_assoc,
  append-nil, Bytes, ok, throws, out_of_range,
}
use kaya_basic.Array.{Array, array1, redim1, bounds, size, resize, put, no_dim}
use kaya_basic.Array.Fill.{put-append, put-full, put_all, put_all-append, put_all-over}
use kaya_basic.Cpp.Int.{pos, ◌+ℤ◌, ◌-ℤ◌}

-- The array while it is filled: the parts so far and the room behind them.
abbrev pub filled : List Bytes → List Bytes → Array Bytes
filled done room = record {
  preserve = false;
  items = done ++ room;
  dim1 = record { lo = pos 0; hi = pos 1024; d = pos 1025 };
  dim2 = no_dim;
  dim3 = no_dim;
  dim4 = no_dim;
}

-- The array that is returned.
abbrev pub parts_array : List Bytes → Array Bytes
parts_array ps = record {
  preserve = true;
  items = ps;
  dim1 = record { lo = pos 0; hi = pos (length ps - 1); d = pos (length ps) };
  dim2 = no_dim;
  dim3 = no_dim;
  dim4 = no_dim;
}

-- The bounds of the first `redim` may come in either order.
pub filled_start :
    (array1 [] (pos 1024) (pos 0) ≡ filled [] (replicate 1025 []))
    × (array1 [] (pos 0) (pos 1024) ≡ filled [] (replicate 1025 []))
unfolding array1 redim1 bounds size resize ◌+ℤ◌ ◌-ℤ◌
filled_start = (refl, refl)

replicate-none : {A : Type 0} (n : ℕ) (v : A) (xs : List A) → n ≡ 0 → xs ++ replicate n v ≡ xs
replicate-none zero v xs h = append-nil xs
replicate-none (suc n) v xs h = absurd (omega arith)

resize-append :
    {A : Type 0} (n : ℕ) (v : A) (xs ys : List A) → length xs ≡ n → resize n v (xs ++ ys) ≡ xs
unfolding resize
resize-append n v xs ys h =
    rw (← h, take-append xs ys)
      (replicate-none (length xs - length (xs ++ ys)) v xs (omega (arith, length-append xs ys)))

bounds-zero :
    (n : ℕ)
    → (bounds (pos n) (pos 0) ≡ record { lo = pos 0; hi = pos n; d = pos (n + 1) })
      × (bounds (pos 0) (pos n) ≡ record { lo = pos 0; hi = pos n; d = pos (n + 1) })
unfolding bounds ◌-ℤ◌ ◌+ℤ◌
bounds-zero n = (ground arith, ground arith)

-- `dest.preserve = 1; dest.redim(idx, 0);` keeps the items up to `idx`, and so does `redim(0,
-- idx)`.
pub redim1-preserve :
    (xs ys : List Bytes) (n : ℕ)
    → length xs ≡ n + 1
    → n < 2 ^ 62
    → (redim1 [] (pos n) (pos 0) (record (filled xs ys) { preserve = true }) ≡ parts_array xs)
      × (redim1 [] (pos 0) (pos n) (record (filled xs ys) { preserve = true }) ≡ parts_array xs)
unfolding redim1 size
redim1-preserve xs ys n e h =
    let wide : (n + 1) % 2 ^ 64 ≡ n + 1 = omega arith in
    let last : length xs - 1 ≡ n = omega arith in
    let (down, up) = bounds-zero n in
    (
      rw (down, wide, resize-append (n + 1) [] xs ys e, last, e) refl,
      rw (up, wide, resize-append (n + 1) [] xs ys e, last, e) refl,
    )

pub put-filled :
    (done : List Bytes) (y t : Bytes) (room : List Bytes)
    → length done < 2 ^ 63
    → put (filled done (y ∷ room)) (pos (length done)) t ≡ ok (filled (done ++ t ∷ []) room)
put-filled done y t room h =
    put-append done y t room (filled done (y ∷ room)) refl refl h
    ∙ ap (λ xs. ok (record (filled done room) { items = xs }))
        (sym (append_assoc done (t ∷ []) room))

pub put-filled_full :
    (done : List Bytes) (t : Bytes)
    → length done < 2 ^ 63
    → put (filled done []) (pos (length done)) t ≡ throws out_of_range
put-filled_full done t h = put-full done t (filled done []) refl (append-nil done) h

-- The loop that fills the array.
pub put_all-filled :
    (ps : List Bytes)
    → length ps ≤ 1025
    → put_all 0 ps (filled [] (replicate 1025 []))
      ≡ ok (filled ps (drop (length ps) (replicate 1025 [])))
put_all-filled ps h =
    let size = length-replicate {A = Bytes} 1025 [] in
    put_all-append [] ps (replicate 1025 []) (filled [] (replicate 1025 [])) refl refl
      (omega (arith, size)) (omega arith)

pub put_all-too_many :
    (ps : List Bytes)
    → 1025 < length ps
    → put_all 0 ps (filled [] (replicate 1025 [])) ≡ throws out_of_range
put_all-too_many ps h =
    let size = length-replicate {A = Bytes} 1025 [] in
    put_all-over [] ps (replicate 1025 []) (filled [] (replicate 1025 [])) refl refl
      (omega (arith, size)) (omega (arith, size))
