-- ===== src/Format.antt =====
-- `Format` of lib/System.cpp: a number written by a mask, with its thousands apart.
pub mod Laws
pub mod Dollars
use kaya_basic.Base.{
  ℕ, zero, suc, ◌+◌, ◌-◌, ◌%◌, ◌<◌, Bool, true, false, not, ◌&&◌, ◌||◌, List, [], ◌∷◌, ◌++◌, ltb,
  ◌==◌, if◌then◌else◌, length, replicate, Bytes, Outcome, ok, undefined,
}
use kaya_basic.Cpp.Int.{ℤ, pos, negsuc, pos_part, ◌-ℤ◌, ltb_ℤ}
use kaya_basic.Cpp.Text.{c_str}

-- `Dollar`, `Spaces`, `Decimals` and `CntDec`.
pub record Mask : Type 0 where
  pub dollar : ℕ
  pub spaces : ℕ
  pub decimals : ℕ
  pub cnt_dec : Bool

abbrev pub no_mask : Mask
no_mask = record { dollar = 0; spaces = 0; decimals = 0; cnt_dec = false }

-- A round of the first loop.
unfoldable pub read_one : ℕ → Mask → Mask
read_one c m = record {
  dollar = if c == 36 then suc m.dollar else m.dollar;
  spaces = if c == 32 then suc m.spaces else m.spaces;
  decimals = if (c == 32 || c == 35) && m.cnt_dec then suc m.decimals else m.decimals;
  cnt_dec = if c == 46 then true else m.cnt_dec;
}

unfoldable pub read_mask : Bytes → Mask → Mask
unfolding read_one
read_mask [] m = m
read_mask (c ∷ s) m = read_mask s (read_one c m)

-- The test for a comma behind `c`, with `len` as the round has left it.
abbrev pub comma_due : ℤ → ℕ → Bool
comma_due len c = ltb_ℤ (pos 2) len && not (c == b'-') && pos_part len % 3 == 0

-- The second loop: what it writes from `r` on.
unfoldable pub group : ℤ → Bytes → Bytes
group len [] = []
group len (c ∷ s) =
    let rest = group (len -ℤ pos 1) s in
    c ∷ (if comma_due (len -ℤ pos 1) c then b',' ∷ rest else rest)

-- What stands in `sRetVar` before `r`: spaces, one dollar sign, and zeros for the other ones.
abbrev pub front : Mask → Bytes
front m = replicate m.spaces 32 ++ (if m.dollar == 0 then [] else 36 ∷ replicate (m.dollar - 1) 0)

-- `fixed` is `sprintf("%1.*f")`. More than the 512 bytes of a buffer is written outside it.
unfoldable pub lay_out : {A : Type 0} → (ℕ → A → Bytes) → A → Mask → Outcome Bytes
unfolding group ◌-ℤ◌
lay_out fixed num m =
    let buf = fixed m.decimals num in
    let len = pos (length buf) -ℤ pos m.decimals -ℤ pos (if ltb 0 m.decimals then 1 else 0) in
    let out = front m ++ group len buf in
    if ltb (length buf) 512 && ltb (length out) 512 then ok (c_str out) else undefined

unfoldable pub format : {A : Type 0} → (ℕ → A → Bytes) → A → Bytes → Outcome Bytes
unfolding lay_out read_mask
format fixed num mask = lay_out fixed num (read_mask (c_str mask) no_mask)
