-- ===== src/Cpp/Checked.antt =====
-- The arithmetic of `int`, where an overflow is an undefined result, as in C++.
use kaya_basic.Base.{
  ℕ, ◌+◌, ◌-◌, ◌*◌, ◌≤◌, ◌<◌, ◌^◌, ◌≡◌, refl, arith, Bool, true, ◌&&◌, leb, ltb, if◌then◌else◌,
  Outcome, ok, undefined,
}
use kaya_basic.Cpp.Int.{
  ℤ, pos, negsuc, pos_part, neg_part, ◌+ℤ◌, ◌-ℤ◌, ◌*ℤ◌, pos-mul-pos, pos-add-pos, pos-sub-pos,
}

abbrev pub is_int : ℤ → Bool
is_int z = ltb (pos_part z) (2 ^ 31) && leb (neg_part z) (2 ^ 31)

unfoldable pub in_int : ℤ → Outcome ℤ
in_int z = if is_int z then ok z else undefined

abbrev pub add_int : ℤ → ℤ → Outcome ℤ
add_int a b = in_int (a +ℤ b)

abbrev pub sub_int : ℤ → ℤ → Outcome ℤ
sub_int a b = in_int (a -ℤ b)

abbrev pub mul_int : ℤ → ℤ → Outcome ℤ
mul_int a b = in_int (a *ℤ b)

pub in_int-pos : (z : ℤ) (n : ℕ) → z ≡ pos n → n < 2 ^ 31 → in_int z ≡ ok (pos n)
unfolding in_int
in_int-pos z n e b = let small : ltb n (2 ^ 31) ≡ true = ground arith in rw (e, small) refl

times : (d : ℤ) (m : ℕ) → neg_part d ≡ 0 → pos m *ℤ d ≡ pos (m * pos_part d)
times (pos n) m h = pos-mul-pos m n
times (negsuc n) m h = absurd (omega arith)

pub mul_int-pos :
    (d : ℤ) (m : ℕ)
    → neg_part d ≡ 0
    → m * pos_part d < 2 ^ 31
    → mul_int (pos m) d ≡ ok (pos (m * pos_part d))
mul_int-pos d m h b = in_int-pos (pos m *ℤ d) (m * pos_part d) (times d m h) b

pub add_int-pos : (m n : ℕ) → m + n < 2 ^ 31 → add_int (pos m) (pos n) ≡ ok (pos (m + n))
add_int-pos m n b = in_int-pos (pos m +ℤ pos n) (m + n) (pos-add-pos m n) b

pub sub_int-pos : (m n : ℕ) → n ≤ m → m < 2 ^ 31 → sub_int (pos m) (pos n) ≡ ok (pos (m - n))
sub_int-pos m n h b = in_int-pos (pos m -ℤ pos n) (m - n) (pos-sub-pos m n h) (omega arith)

pub mul_int-nat : (m n : ℕ) → m * n < 2 ^ 31 → mul_int (pos m) (pos n) ≡ ok (pos (m * n))
mul_int-nat m n b = mul_int-pos (pos n) m refl b
