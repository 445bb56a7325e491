-- ===== src/Cpp/Word.antt =====
-- The conversions between `Long` (64 bits, signed) and `size_t`, as the compiler makes them.
use kaya_basic.Base.{ℕ, ◌+◌, ◌-◌, ◌%◌, ◌^◌, ◌<◌, ◌≡◌, arith, ltb, if◌then◌else◌, List, length}
use kaya_basic.Cpp.Int.{ℤ, pos, negsuc, ◌+ℤ◌, ◌-ℤ◌}

abbrev pub npos : ℕ
npos = 2 ^ 64 - 1

-- Where `std::string` refuses to grow.
abbrev pub max_size : ℕ
max_size = 2 ^ 63 - 1

abbrev pub to_size : ℤ → ℕ
to_size (pos n) = n % 2 ^ 64
to_size (negsuc n) = 2 ^ 64 - 1 - n % 2 ^ 64

abbrev pub to_long : ℕ → ℤ
to_long n = if ltb n (2 ^ 63) then pos n else negsuc (2 ^ 64 - 1 - n)

-- A string's length is below `max_size`, so that a `Long` holds it.
abbrev pub Fits {ℓ} : {A : Type ℓ} → List A → Type 0
Fits s = length s < max_size

pub to_size-to_long : (n : ℕ) → n < 2 ^ 64 → to_size (to_long n) ≡ n
to_size-to_long n h = ground arith

-- `s.find(…) + 1`, with a `Long` for the position: 0 stands for `npos`.
pub to_long-npos-add-one : to_long npos +ℤ pos 1 ≡ pos 0
unfolding ◌+ℤ◌
to_long-npos-add-one = ground arith

pub to_long-add-one : (n : ℕ) → n < max_size → to_long n +ℤ pos 1 ≡ pos (n + 1)
unfolding ◌+ℤ◌
to_long-add-one n h = ground arith

pub to_size-sub-one : (n : ℕ) → n + 1 < 2 ^ 64 → to_size (pos (n + 1) -ℤ pos 1) ≡ n
unfolding ◌-ℤ◌
to_size-sub-one n h = ground arith

-- The `int` that 64 bits are cut down to.
abbrev pub to_int : ℕ → ℤ
to_int n = let w = n % 2 ^ 32 in if ltb w (2 ^ 31) then pos w else negsuc (2 ^ 32 - 1 - w)
