-- ===== src/Clock.antt =====
-- `Date`, `FullDate`, `Time` and `Hex` of lib/System.cpp: numbers written into a buffer of a fixed
-- size.
pub mod Laws
use kaya_basic.Base.{
  ℕ, ◌+◌, ◌%◌, ◌^◌, ◌<◌, List, [], ◌∷◌, ◌++◌, ltb, if◌then◌else◌, length, Bytes, codes, Outcome, ok,
  undefined,
}
use kaya_basic.Cpp.Digits.{decimal, hexadecimal, padded}

-- The fields of `struct tm` that are read; from 1900 on none of them is negative.
pub record Tm : Type 0 where
  pub tm_year : ℕ
  pub tm_mon : ℕ
  pub tm_mday : ℕ
  pub tm_hour : ℕ
  pub tm_min : ℕ
  pub tm_sec : ℕ

-- `sprintf` into a buffer of so many bytes, the NUL included; more is written outside it.
unfoldable pub printed_in : ℕ → Bytes → Outcome Bytes
printed_in size s = if ltb (length s) size then ok s else undefined

-- `dt` is what `localtime` gives.
unfoldable pub date : Tm → Outcome Bytes
unfolding printed_in
date dt = printed_in 9 (
    padded 2 (dt.tm_year % 100)
    ++ codes "/"
    ++ padded 2 (dt.tm_mon + 1)
    ++ codes "/"
    ++ padded 2 dt.tm_mday)

unfoldable pub full_date : Tm → Outcome Bytes
unfolding printed_in
full_date dt = printed_in 11 (
    padded 4 (1900 + dt.tm_year)
    ++ codes "/"
    ++ padded 2 (dt.tm_mon + 1)
    ++ codes "/"
    ++ padded 2 dt.tm_mday)

unfoldable pub time : Tm → Outcome Bytes
unfolding printed_in
time dt =
    printed_in 9
      (padded 2 dt.tm_hour ++ codes ":" ++ padded 2 dt.tm_min ++ codes ":" ++ padded 2 dt.tm_sec)

-- The argument is a `UInteger`.
unfoldable pub hex : ℕ → Outcome Bytes
unfolding printed_in
hex n = printed_in 32 (hexadecimal (n % 2 ^ 32))
