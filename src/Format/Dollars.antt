-- ===== src/Format/Dollars.antt =====
-- A mask with more than one dollar sign loses the number.
use kaya_basic.Base.{
  ℕ, zero, suc, ◌+◌, ◌-◌, ◌*◌, ◌≤◌, ◌<◌, ◌≢◌, ◌≡◌, refl, arith, [], ◌∷◌, ◌++◌, ltb, lt→ltb, ◌==◌,
  if◌then◌else◌, length, replicate, length-append, length-replicate, append_assoc, Bytes, ok,
}
use kaya_basic.Cpp.Int.{ℤ, pos, ◌-ℤ◌}
use kaya_basic.Cpp.Text.{c_str}
use kaya_basic.Format.{Mask, no_mask, read_mask, group, front, lay_out, format}

c_str-replicate :
    (k c : ℕ) (s : Bytes) → c ≢ 0 → c_str (replicate k c ++ s) ≡ replicate k c ++ c_str s
unfolding c_str
c_str-replicate zero c s h = refl
c_str-replicate (suc k) c s h = ground (arith, c_str-replicate k c s h)

c_str-sign :
    (d : ℕ) (s : Bytes)
    → 2 ≤ d
    → c_str ((if d == 0 then [] else 36 ∷ replicate (d - 1) 0) ++ s) ≡ 36 ∷ []
unfolding c_str
c_str-sign zero s h = absurd (omega arith)
c_str-sign (suc zero) s h = absurd (omega arith)
c_str-sign (suc (suc d)) s h =
    let one_more : suc (suc d) - 1 ≡ suc d = omega arith in rw one_more (ground arith)

c_str-front :
    (m : Mask) (s : Bytes) → 2 ≤ m.dollar → c_str (front m ++ s) ≡ replicate m.spaces 32 ++ 36 ∷ []
c_str-front m s h =
    rw
      (
        append_assoc {A = ℕ} (replicate m.spaces 32),
        c_str-replicate m.spaces 32 _ (omega arith),
        c_str-sign m.dollar s h,
      )
      refl

length-group : (len : ℤ) (s : Bytes) → length (group len s) ≤ 2 * length s
unfolding group
length-group len [] = omega arith
length-group len (c ∷ s) = ground (arith, length-group (len -ℤ pos 1) s)

length-front : (m : Mask) → 1 ≤ m.dollar → length (front m) ≡ m.spaces + m.dollar
length-front m h = ground (
  arith,
  length-append {A = ℕ} (replicate m.spaces 32) (36 ∷ replicate (m.dollar - 1) 0),
  length-replicate {A = ℕ} m.spaces 32,
  length-replicate {A = ℕ} (m.dollar - 1) 0,
)

lay_out-two_dollars :
    {A : Type 0} (fixed : ℕ → A → Bytes) (num : A) (m : Mask)
    → 2 ≤ m.dollar
    → m.spaces + m.dollar + 2 * length (fixed m.decimals num) < 512
    → lay_out fixed num m ≡ ok (replicate m.spaces 32 ++ 36 ∷ [])
unfolding lay_out
lay_out-two_dollars fixed num m d b =
    let buf = fixed m.decimals num in
    let len = pos (length buf) -ℤ pos m.decimals -ℤ pos (if ltb 0 m.decimals then 1 else 0) in
    let short : length buf < 512 = omega arith in
    let fits : length (front m ++ group len buf) < 512 =
      omega
        (arith, length-append (front m) (group len buf), length-front m, length-group len buf) in
    rw (lt→ltb _ _ short, lt→ltb _ _ fits, c_str-front m (group len buf) d) refl

-- If the mask has two dollar signs or more, and its spaces, its dollar signs and twice the bytes
-- that `sprintf` writes for the number are fewer than 512 together, `Format` returns the spaces of
-- the mask and one dollar sign, and nothing of the number.
pub format-two_dollars :
    {A : Type 0} (fixed : ℕ → A → Bytes) (num : A) (mask : Bytes)
    → let m = read_mask (c_str mask) no_mask in
      2 ≤ m.dollar
      → m.spaces + m.dollar + 2 * length (fixed m.decimals num) < 512
      → format fixed num mask ≡ ok (replicate m.spaces 32 ++ 36 ∷ [])
unfolding format
format-two_dollars fixed num mask d b =
    lay_out-two_dollars fixed num (read_mask (c_str mask) no_mask) d b
