-- ===== src/Maths/Rounding.antt =====
-- What `Round` does to numbers on both sides of 0.
use kaya_basic.Base.{
  ℕ, zero, suc, ◌+◌, ◌*◌, ◌^◌, ◌<◌, ◌≢◌, ◌≡◌, refl, ap, ◌∙◌, arith, true, false, Bool-cases, inl,
  inr, ltb, ◌==◌, some, if◌then◌else◌, ok,
}
use kaya_basic.Cpp.Int.{
  pos_part, neg_part, pos-mul-pos, pos-sub-pos, +ℤ_parts, -ℤ_parts, eq_of_parts, ℤ, pos, negsuc,
  ltb_ℤ, ◌+ℤ◌, ◌-ℤ◌, ◌*ℤ◌,
}
use kaya_basic.Maths.{Reals, fix, frac, round}

-- Minus a number.
abbrev pub minus : ℕ → ℤ
minus zero = pos 0
minus (suc n) = negsuc n

-- What is relied on of `double`: `value` is what a number is worth in parts of which `d` make 1. A
-- conversion cuts towards 0, `floor` goes down and `ceil` up, and a number less its whole part is
-- exact. Only numbers below 2 ^ 52 are spoken of.
pub record IsExact (r : Reals) (d : ℕ) (value : r.Double → ℤ) : Type 0 where
  pub value_half : value r.half +ℤ value r.half ≡ pos d
  pub less_value : (x y : r.Double) → r.less x y ≡ ltb_ℤ (value x) (value y)
  pub sub_whole :
      (x : r.Double) (z : ℤ)
      → r.to_long x ≡ some z
      → value (r.sub x (r.of_long z)) ≡ value x -ℤ z *ℤ pos d
  pub cut :
      (x : r.Double) (q k : ℕ)
      → q < 2 ^ 52
      → k < d
      → ((value x ≡ pos (q * d + k)) → r.to_long x ≡ some (pos q))
        × ((value x ≡ minus (q * d + k)) → r.to_long x ≡ some (minus q))
  pub floor_value :
      (x : r.Double) (q k : ℕ)
      → q < 2 ^ 52
      → k < d
      → ((value x ≡ pos (q * d + k)) → value (r.floor x) ≡ pos (q * d))
        × ((value x ≡ minus (q * d + k))
            → value (r.floor x) ≡ minus (if k == 0 then q * d else suc q * d))
  pub ceil_value :
      (x : r.Double) (q k : ℕ)
      → q < 2 ^ 52
      → k < d
      → (value x ≡ pos (q * d + k))
      → value (r.ceil x) ≡ pos (if k == 0 then q * d else suc q * d)

minus_parts : (n : ℕ) → (pos_part (minus n) ≡ 0) × (neg_part (minus n) ≡ n)
minus_parts zero = (refl, refl)
minus_parts (suc n) = (refl, refl)

rest_above : (q k d : ℕ) → pos (q * d + k) -ℤ pos q *ℤ pos d ≡ pos k
rest_above q k d =
    rw (pos-mul-pos q d, pos-sub-pos (q * d + k) (q * d) (omega arith)) (ap pos (omega arith))

minus-mul-pos : (q d : ℕ) → minus q *ℤ pos d ≡ minus (q * d)
unfolding ◌*ℤ◌
minus-mul-pos zero d = let none_left : 0 * d ≡ 0 = omega arith in rw none_left refl
minus-mul-pos (suc q) d = eq_of_parts _ _ (ground (arith, minus_parts (suc q * d)))

rest_below : (q k d : ℕ) → minus (q * d + k) -ℤ minus q *ℤ pos d ≡ minus k
rest_below q k d =
    let (p1, n1) = minus_parts (q * d + k) in
    let (p2, n2) = minus_parts (q * d) in
    let (p3, n3) = minus_parts k in
    rw (minus-mul-pos q d) (
      eq_of_parts (minus (q * d + k) -ℤ minus (q * d)) (minus k)
        (omega (arith, -ℤ_parts (minus (q * d + k)) (minus (q * d)))))

module _ (r : Reals) (d : ℕ) (value : r.Double → ℤ) (h : IsExact r d value) where
  below_half : (k : ℕ) → ltb_ℤ (pos k) (value r.half) ≡ ltb (k + k) d
  below_half k = ground (
    arith,
    +ℤ_parts (value r.half) (value r.half),
    ap pos_part h.value_half,
    ap neg_part h.value_half,
  )

  minus_below_half : (k : ℕ) → 0 < d → ltb_ℤ (minus k) (value r.half) ≡ true
  minus_below_half k b = ground (
    arith,
    minus_parts k,
    +ℤ_parts (value r.half) (value r.half),
    ap pos_part h.value_half,
    ap neg_part h.value_half,
  )

  whole_above :
      (w : r.Double) (q : ℕ)
      → q < 2 ^ 52
      → 0 < d
      → value w ≡ pos (q * d)
      → r.to_long w ≡ some (pos q)
  whole_above w q b b' e = (h.cut w q 0 b b').0 (e ∙ ap pos (omega arith))

  whole_below :
      (w : r.Double) (q : ℕ)
      → q < 2 ^ 52
      → 0 < d
      → value w ≡ minus (q * d)
      → r.to_long w ≡ some (minus q)
  whole_below w q b b' e = (h.cut w q 0 b b').1 (e ∙ ap minus (omega arith))

  floor_above :
      (x : r.Double) (q k : ℕ)
      → q + 1 < 2 ^ 52
      → k < d
      → value x ≡ pos (q * d + k)
      → r.to_long (r.floor x) ≡ some (pos q)
  floor_above x q k b part e =
      whole_above (r.floor x) q (omega arith) (omega arith)
        ((h.floor_value x q k (omega arith) part).0 e)

  ceil_above :
      (x : r.Double) (q k : ℕ)
      → q + 1 < 2 ^ 52
      → k < d
      → k ≢ 0
      → value x ≡ pos (q * d + k)
      → r.to_long (r.ceil x) ≡ some (pos (suc q))
  ceil_above x q k b part some_part e =
      let not_whole : (k == 0) ≡ false = ground arith in
      let up : value (r.ceil x) ≡ pos (if k == 0 then q * d else suc q * d) =
        h.ceil_value x q k (omega arith) part e in
      whole_above (r.ceil x) (suc q) (omega arith) (omega arith) (rw not_whole at up)

  floor_below :
      (y : r.Double) (q k : ℕ)
      → q + 1 < 2 ^ 52
      → k < d
      → value y ≡ minus (q * d + k)
      → r.to_long (r.floor y) ≡ some (minus (if k == 0 then q else suc q))
  floor_below y q k b part e =
      let down : value (r.floor y) ≡ minus (if k == 0 then q * d else suc q * d) =
        (h.floor_value y q k (omega arith) part).1 e in
      elim (Bool-cases (k == 0)) [
        | inl whole ↦
            rw whole (whole_below (r.floor y) q (omega arith) (omega arith) (rw whole at down))
        | inr not_whole ↦
            rw not_whole
              (whole_below (r.floor y) (suc q) (omega arith) (omega arith) (rw not_whole at down))
      ]

-- Where the arithmetic is exact on the parts of `1 / d`, take the numbers `q + k / d` and its
-- negative, with `k < d` and `q + 1 < 2 ^ 52`. `Round` of the first is the nearest whole number, a
-- half going up. `Round` of the second is `-q` where `k` is 0, and else `-(q + 1)`, however small
-- `k` is.
pub round_lem :
    (r : Reals) (d : ℕ) (value : r.Double → ℤ) (x y : r.Double) (q k : ℕ)
    → IsExact r d value
    → q + 1 < 2 ^ 52
    → k < d
    → value x ≡ pos (q * d + k)
    → value y ≡ minus (q * d + k)
    → (round r x ≡ ok (pos (if ltb (k + k) d then q else suc q)))
      × (round r y ≡ ok (minus (if k == 0 then q else suc q)))
unfolding round frac fix
round_lem r d value x y q k h small part at_x at_y =
    let to_x : r.to_long x ≡ some (pos q) = (h.cut x q k (omega arith) part).0 at_x in
    let to_y : r.to_long y ≡ some (minus q) = (h.cut y q k (omega arith) part).1 at_y in
    let less_x : r.less (r.sub x (r.of_long (pos q))) r.half ≡ ltb (k + k) d =
      h.less_value _ _
      ∙ ap (λ z. ltb_ℤ z (value r.half))
          (h.sub_whole x (pos q) to_x ∙ ap (λ z. z -ℤ pos q *ℤ pos d) at_x ∙ rest_above q k d)
      ∙ below_half r d value h k in
    let less_y : r.less (r.sub y (r.of_long (minus q))) r.half ≡ true =
      h.less_value _ _
      ∙ ap (λ z. ltb_ℤ z (value r.half))
          (h.sub_whole y (minus q) to_y ∙ ap (λ z. z -ℤ minus q *ℤ pos d) at_y ∙ rest_below q k d)
      ∙ minus_below_half r d value h k (omega arith) in
    (
      rw (to_x, less_x)
          (elim (Bool-cases (ltb (k + k) d)) [
            | inl low ↦ rw (low, floor_above r d value h x q k small part at_x) refl
            | inr high ↦ rw (high, ceil_above r d value h x q k small part (ground arith) at_x) refl
          ]),
      rw (to_y, less_y, floor_below r d value h y q k small part at_y) refl,
    )
