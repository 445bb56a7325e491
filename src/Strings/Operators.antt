-- ===== src/Strings/Operators.antt =====
-- The operators of lib/core/core.h between a string and a whole number.
use kaya_basic.Base.{
  ℕ, zero, suc, ◌+◌, ◌-◌, ◌/◌, ◌%◌, ◌^◌, ◌<◌, ◌≢◌, leb, ◌==◌, ◌++◌, ◌≡◌, refl, sym, arith,
  if◌then◌else◌, length, take, drop, take_all, append-nil, append_assoc, copies, Bytes, codes,
  Outcome, ok, throws, text, out_of_range,
}
use kaya_basic.Cpp.Int.{ℤ, pos, negsuc, pos_part, ltb_ℤ}
use kaya_basic.Cpp.Word.{npos, to_size, to_int, Fits}
use kaya_basic.Cpp.Text.{substr, substr-drop}

-- `for (int i = 1; i < n; i++) ret += s;`, for the rounds left.
append_times : ℕ → Bytes → Bytes → Bytes
append_times zero ret s = ret
append_times (suc k) ret s = append_times k (ret ++ s) s

abbrev rounds : ℤ → ℕ
rounds (pos n) = n - 1
rounds (negsuc n) = 0

-- `s * n`
unfoldable pub times : Bytes → ℤ → Outcome Bytes
unfolding append_times
times s n =
    if ltb_ℤ n (pos 0) then throws (text (codes "n < 0")) else ok (append_times (rounds n) s s)

-- `s / n`: the quotient is a `size_t`, and is cast to `int`.
unfoldable pub over : Bytes → ℤ → Outcome Bytes
unfolding substr
over s n =
    if ltb_ℤ n (pos 1)
    then throws (text (codes "n < 1"))
    else substr s 0 (to_size (to_int (length s / to_size n)))

-- `s >> n`: the count `s.length() - n` is a `size_t`, and wraps.
unfoldable pub shift_right : Bytes → ℤ → Outcome Bytes
unfolding substr
shift_right s n =
    if ltb_ℤ n (pos 1)
    then throws (text (codes "n < 1"))
    else substr s 0 ((length s + 2 ^ 64 - to_size n) % 2 ^ 64)

-- `s << n`
unfoldable pub shift_left : Bytes → ℤ → Outcome Bytes
shift_left s n =
    if ltb_ℤ n (pos 1) then throws (text (codes "n < 1")) else substr s (to_size n) npos

copies_one : (s : Bytes) → copies 1 s ≡ s
copies_one s = append-nil s

copies-pred : (n : ℕ) (s : Bytes) → n ≢ 0 → s ++ copies (n - 1) s ≡ copies n s
copies-pred zero s h = absurd (h refl)
copies-pred (suc n) s h = let e : suc n - 1 ≡ n = omega arith in rw e

append_times-copies : (k : ℕ) (ret s : Bytes) → append_times k ret s ≡ ret ++ copies k s
unfolding append_times
append_times-copies zero ret s = sym (append-nil ret)
append_times-copies (suc k) ret s = rw (append_times-copies k (ret ++ s) s, append_assoc)

-- `s * n` throws at a negative `n`; otherwise it is `n` copies of `s`, but one copy at `n = 0`.
pub times-copies :
    (s : Bytes) (n : ℤ)
    → times s n ≡ (
        if ltb_ℤ n (pos 0)
        then throws (text (codes "n < 0"))
        else ok (copies (if pos_part n == 0 then 1 else pos_part n) s))
unfolding times
times-copies s (negsuc n) = ground arith
times-copies s (pos n) =
    ground (arith, append_times-copies (n - 1) s s, copies-pred n s, copies_one s)

-- Every branch of `s >> n`: it cuts the last `n` bytes off, and gives the whole string back where
-- there are fewer.
pub shift_right-branches :
    (s : Bytes) (n : ℕ)
    → Fits s
    → n < 2 ^ 63
    → shift_right s (pos n) ≡ (
        if n == 0
        then throws (text (codes "n < 1"))
        else if leb n (length s)
        then ok (take (length s - n) s)
        else ok s)
unfolding shift_right
shift_right-branches s n f h = ground (arith, take_all (length s + 2 ^ 64 - n) s)

-- Every branch of `s << n`: it cuts the first `n` bytes off, and throws where there are fewer.
pub shift_left-branches :
    (s : Bytes) (n : ℕ)
    → Fits s
    → n < 2 ^ 63
    → shift_left s (pos n) ≡ (
        if n == 0
        then throws (text (codes "n < 1"))
        else if leb n (length s)
        then ok (drop n s)
        else throws out_of_range)
unfolding shift_left
shift_left-branches s n f h = ground (arith, substr-drop s n f)

-- Every branch of `s / n`, for a string that an `int` counts: it throws at 0, and otherwise keeps
-- the first `Len(s) / n` bytes.
pub over-branches :
    (s : Bytes) (n : ℕ)
    → length s < 2 ^ 31
    → n < 2 ^ 63
    → over s (pos n)
      ≡ (if n == 0 then throws (text (codes "n < 1")) else ok (take (length s / n) s))
unfolding over
over-branches s n f h = ground arith
