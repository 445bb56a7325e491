-- ===== src/Cpp/Floats.antt =====
-- Floating point, which the program takes from the processor and the C library.
use kaya_basic.Base.{ℕ, ◌^◌, ◌≤◌, ◌≡◌, Bytes, codes}
use kaya_basic.Cpp.Int.{ℤ, pos}

-- `print` is `sprintf("%.16g")`, `parse` is `atof`, `of_long` and `to_long` are the conversions.
pub record Floats : Type 1 where
  pub Double : Type 0
  pub of_long : ℤ → Double
  pub to_long : Double → ℤ
  pub print : Double → Bytes
  pub parse : Bytes → Double
  -- Whole numbers up to 2 ^ 53 are exact.
  pub to_long-of_long : (n : ℕ) → n ≤ 2 ^ 53 → to_long (of_long (pos n)) ≡ pos n
  pub print_one : print (of_long (pos 1)) ≡ codes "1"
