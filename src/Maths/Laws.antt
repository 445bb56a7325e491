-- ===== src/Maths/Laws.antt =====
-- What `Rnd` gives.
use kaya_basic.Base.{
  ℕ, zero, suc, ◌*◌, ◌/◌, ◌^◌, ◌≤◌, ◌<◌, ◌≢◌, ◌≡◌, refl, ap, arith, true, ltb, lt→ltb, ok,
}
use native.Mathlib.Nat.{
  mul-div_cancel_left, mul-le-mul, div-lt_iff_lt-mul, mul-lt-mul_of_pos_right, mul_comm,
}
use kaya_basic.Cpp.Int.{pos}
use kaya_basic.Maths.{Reals, scaled, rnd}

product_fits : (k m : ℕ) → k < 2 ^ 31 → m < 2 ^ 32 → ltb (k * m) (2 ^ 63) ≡ true
product_fits k m h h' =
    let bound : k * m ≤ 2147483647 * 4294967295 =
      mul-le-mul {n₁ = k} {m₁ = m} {n₂ = 2147483647} {m₂ = 4294967295} (omega arith)
        (omega arith) in
    lt→ltb _ _ (omega arith)

-- `Rnd` of a positive number below 2 ^ 32 does not overflow, as long as `RAND_MAX` is below 2 ^ 31.
-- It is a whole number from 0 on and below that number, except where `rand` gives `RAND_MAX`: then
-- it is that number itself.
pub rnd-range :
    (r : Reals) (rand_max k m : ℕ)
    → rand_max < 2 ^ 31
    → k < rand_max
    → m ≢ 0
    → m < 2 ^ 32
    → ((q : ℕ) × (rnd r rand_max k (pos m) ≡ ok (r.of_long (pos q))) × (q < m))
      × (rnd r rand_max rand_max (pos m) ≡ ok (r.of_long (pos m)))
unfolding rnd scaled
rnd-range r rand_max k zero fits some_k ne small = absurd (ne refl)
rnd-range r rand_max k (suc m) fits some_k ne small =
    let below : k * suc m < suc m * rand_max =
      rw (mul_comm (suc m) rand_max) (mul-lt-mul_of_pos_right {k = suc m} some_k (omega arith)) in
    (
      (
        k * suc m / rand_max,
        rw (product_fits k (suc m) (omega arith) small) refl,
        (div-lt_iff_lt-mul {k = rand_max} (omega arith)).1 below,
      ),
      rw (product_fits rand_max (suc m) fits small) (
          ap (λ q. ok (r.of_long (pos q)))
            (mul-div_cancel_left (suc m) {n = rand_max} (omega arith))),
    )
