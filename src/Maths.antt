-- ===== src/Maths.antt =====
-- The mathematical functions of lib/System.cpp.
pub mod Laws
pub mod Rounding
use kaya_basic.Base.{
  ℕ, zero, suc, ◌+◌, ◌-◌, ◌*◌, ◌/◌, ◌%◌, ◌^◌, ◌<◌, Bool, true, false, Option, none, some, ltb, leb,
  ◌==◌, if◌then◌else◌, ◌||◌, Outcome, ok, undefined, ◌>>=◌,
}
use kaya_basic.Cpp.Int.{ℤ, pos, negsuc}
use kaya_basic.Cpp.Word.{to_size}

-- The arithmetic of `double` and the functions of the C library. A conversion to `Long` or to `int`
-- has no defined result out of the range of the type.
pub record Reals : Type 1 where
  pub Double : Type 0
  pub less : Double → Double → Bool
  pub same : Double → Double → Bool
  pub add : Double → Double → Double
  pub sub : Double → Double → Double
  pub mul : Double → Double → Double
  pub div : Double → Double → Double
  pub pow : Double → Double → Double
  pub neg : Double → Double
  pub fabs : Double → Double
  pub ceil : Double → Double
  pub floor : Double → Double
  pub exp : Double → Double
  pub log : Double → Double
  pub cos : Double → Double
  pub sin : Double → Double
  pub tan : Double → Double
  pub sqrt : Double → Double
  pub of_long : ℤ → Double
  pub to_long : Double → Option ℤ
  pub to_int : Double → Option ℤ
  -- 0.5 and 1e308
  pub half : Double
  pub huge : Double

abbrev defined : {A : Type 0} → Option A → Outcome A
defined (some x) = ok x
defined none = undefined

module _ (r : Reals) where
  open r use {
    Double, less, same, add, sub, mul, div, pow, neg, fabs, ceil, floor, exp, log, cos, sin, tan,
    sqrt, of_long, to_long, to_int, half, huge,
  }

  abbrev zero_double : Double
  zero_double = of_long (pos 0)

  abbrev one : Double
  one = of_long (pos 1)

  unfoldable pub abs : Double → Double
  abs n = if less n zero_double then neg n else n

  unfoldable pub ceil_of : Double → Double
  ceil_of n = ceil n

  unfoldable pub c_lng : Double → Outcome ℤ
  c_lng n = defined (to_long n)

  unfoldable pub cos_of : Double → Double
  cos_of n = cos n

  unfoldable pub exp_of : Double → Double
  exp_of n = exp n

  unfoldable pub fix : Double → Outcome Double
  fix n = do z ← defined (to_long n); ok (of_long z)

  unfoldable pub floor_of : Double → Double
  floor_of n = floor n

  unfoldable pub frac : Double → Outcome Double
  unfolding fix
  frac n = do whole ← fix n; ok (sub n whole)

  unfoldable pub int : Double → Outcome ℤ
  int n = defined (to_int n)

  unfoldable pub log_of : Double → Double
  log_of n = log n

  unfoldable pub pow_of : Double → Double → Double
  pow_of n p = pow n p

  unfoldable pub round : Double → Outcome ℤ
  unfolding frac
  round n = do rest ← frac n; defined (to_long (if less rest half then floor n else ceil n))

  unfoldable pub sgn : Double → Outcome ℤ
  sgn n = if same n zero_double then ok (pos 0) else defined (to_long (div n (fabs n)))

  unfoldable pub sin_of : Double → Double
  sin_of n = sin n

  unfoldable pub sqr : Double → Double
  sqr n = sqrt n

  unfoldable pub tan_of : Double → Double
  tan_of n = tan n

  unfoldable pub acosh : Double → Double
  acosh n = if less n one then huge else log (add n (sqrt (sub (mul n n) one)))

  unfoldable pub asinh : Double → Double
  asinh n = log (add n (sqrt (add (mul n n) one)))

  unfoldable pub atanh : Double → Double
  atanh n =
      if less n (neg one) || same n (neg one)
      then huge
      else if less one n || same n one
      then huge
      else log (div (add one (div n (sub one n))) (of_long (pos 2)))

  -- `rand() * max / RAND_MAX`, the number of `rand` being `k`: the product is a `Long`, and the
  -- quotient is cut towards 0.
  unfoldable pub scaled : ℕ → ℕ → ℤ → Outcome ℤ
  scaled rand_max k (pos m) =
      if ltb (k * m) (2 ^ 63) then ok (pos (k * m / rand_max)) else undefined
  scaled rand_max k (negsuc m) =
      let q = k * suc m / rand_max in
      if leb (k * suc m) (2 ^ 63) then ok (if q == 0 then pos 0 else negsuc (q - 1)) else undefined

  unfoldable pub rnd : ℕ → ℕ → ℤ → Outcome Double
  unfolding scaled
  rnd rand_max k (pos zero) = ok (div (of_long (pos k)) (of_long (pos rand_max)))
  rnd rand_max k max = do z ← scaled rand_max k max; ok (of_long z)

  -- `clock()` by `CLOCKS_PER_SEC`.
  unfoldable pub timer : ℤ → ℤ → Double
  timer clocks per_sec = div (of_long clocks) (of_long per_sec)

  -- A pointer, not what it points to.
  unfoldable pub var_ptr_double : ℤ → Double
  var_ptr_double ptr = of_long ptr

-- `srand` and `sleep` take an `unsigned int`, to which the argument is cut down.
unfoldable pub randomize : {W : Type 0} → (ℕ → W → W) → ℤ → W → W
randomize srand seed w = srand (to_size seed % 2 ^ 32) w

unfoldable pub sleep : {W : Type 0} → (ℕ → W → W) → ℤ → W → W
sleep slept sec w = slept (to_size sec % 2 ^ 32) w
