-- ===== src/Examples/Tenths.antt =====
-- Numbers with one decimal place in place of `double`.
use kaya_basic.Base.{
  ℕ, zero, suc, ◌+◌, ◌*◌, ◌/◌, ◌<◌, ◌≡◌, refl, ap, ◌∙◌, arith, Option, some, ◌==◌, if◌then◌else◌,
  ok,
}
use kaya_basic.Cpp.Int.{ℤ, pos, negsuc, ◌+ℤ◌, ◌-ℤ◌, ◌*ℤ◌, ltb_ℤ, eqb_ℤ, pos_part, neg_part}
use kaya_basic.Maths.{Reals, round}
use kaya_basic.Maths.Rounding.{minus, IsExact, round_lem}

abbrev cut_off : ℤ → Option ℤ
cut_off (pos n) = some (pos (n / 10))
cut_off (negsuc n) = some (minus ((n + 1) / 10))

abbrev down : ℤ → ℤ
down (pos n) = pos (n / 10 * 10)
down (negsuc n) = minus ((n + 10) / 10 * 10)

abbrev up : ℤ → ℤ
up (pos n) = pos ((n + 9) / 10 * 10)
up (negsuc n) = minus ((n + 1) / 10 * 10)

abbrev first_of : ℤ → ℤ → ℤ
first_of x y = x

abbrev tenths : Reals
tenths = record {
  Double = ℤ;
  less = ltb_ℤ;
  same = eqb_ℤ;
  add = λ x y. x +ℤ y;
  sub = λ x y. x -ℤ y;
  mul = first_of;
  div = first_of;
  pow = first_of;
  neg = λ x. pos 0 -ℤ x;
  fabs = λ x. pos (pos_part x + neg_part x);
  ceil = up;
  floor = down;
  exp = λ x. x;
  log = λ x. x;
  cos = λ x. x;
  sin = λ x. x;
  tan = λ x. x;
  sqrt = λ x. x;
  of_long = λ z. z *ℤ pos 10;
  to_long = cut_off;
  to_int = cut_off;
  half = pos 5;
  huge = pos 1000;
}

cut_off-minus : (n : ℕ) → cut_off (minus n) ≡ some (minus (n / 10))
cut_off-minus zero = refl
cut_off-minus (suc n) = ap (λ m. some (minus (m / 10))) (omega arith)

down-minus : (n : ℕ) → down (minus n) ≡ minus ((n + 9) / 10 * 10)
down-minus zero = refl
down-minus (suc n) = ap (λ m. minus (m / 10 * 10)) (omega arith)

round_up : (q k : ℕ) → k < 10 → (q * 10 + k + 9) / 10 * 10 ≡ (if k == 0 then q * 10 else suc q * 10)
round_up q k b = ground arith

tenths-IsExact : IsExact tenths 10 (λ x. x)
tenths-IsExact = record {
  value_half = unfold ◌+ℤ◌ in refl;
  less_value = λ x y. refl;
  sub_whole = λ x z e. refl;
  cut = λ x q k b part. (
    λ e. ap cut_off e ∙ ap (λ m. some (pos m)) (omega arith),
    λ e. ap cut_off e ∙ cut_off-minus (q * 10 + k) ∙ ap (λ m. some (minus m)) (omega arith),
  );
  floor_value = λ x q k b part. (
    λ e. ap down e ∙ ap pos (omega arith),
    λ e. ap down e ∙ down-minus (q * 10 + k) ∙ ap minus (round_up q k part),
  );
  ceil_value = λ x q k b part e. ap up e ∙ ap pos (round_up q k part);
}

-- 2.3 and -2.3
round_lem_example :
    (round tenths (pos 23) ≡ ok (pos 2)) × (round tenths (negsuc 22) ≡ ok (negsuc 2))
round_lem_example =
    round_lem tenths 10 (λ x. x) (pos 23) (negsuc 22) 2 3 tenths-IsExact (omega arith) (omega arith)
      refl refl
