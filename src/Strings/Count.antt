-- ===== src/Strings/Count.antt =====
-- `Tally` and `Rgb` of lib/System.cpp.
use kaya_basic.Base.{
  ℕ, zero, suc, ◌+◌, ◌-◌, ◌*◌, ◌/◌, ◌%◌, ◌^◌, ◌≤◌, ◌<◌, ltb, false, [], ◌∷◌, ◌≡◌, refl, arith,
  if◌then◌else◌, length, drop, Bytes, Outcome, ok, undefined,
}
use kaya_basic.Cpp.Text.{starts_with}

-- `while (n--) if (!memcmp(p++, sub, …)) result++;` with `p` at the head of the list.
tally_from : Bytes → Bytes → ℕ → ℕ → ℕ
tally_from sub p zero result = result
tally_from sub p (suc n) result =
    tally_from sub (drop 1 p) n (if starts_with sub p then result + 1 else result)

-- With `sub` longer than `s` by two bytes or more, `n` is negative: `memcmp` reads outside `s`.
unfoldable pub tally : Bytes → Bytes → Outcome ℕ
unfolding tally_from starts_with
tally s sub =
    if ltb (length s + 1) (length sub)
    then undefined
    else ok (tally_from sub s (length s + 1 - length sub) 0)

-- `b + (g << 8) + (r << 16)`
unfoldable pub rgb : ℕ → ℕ → ℕ → ℕ
rgb r g b = b + g * 2 ^ 8 + r * 2 ^ 16

-- Each colour is read back from its byte, and the value stays below 2 ^ 24.
pub rgb_bytes :
    (r g b : ℕ)
    → r < 256
    → g < 256
    → b < 256
    → (rgb r g b / 2 ^ 16 ≡ r)
      × (rgb r g b / 2 ^ 8 % 256 ≡ g)
      × (rgb r g b % 256 ≡ b)
      × (rgb r g b < 2 ^ 24)
unfolding rgb
rgb_bytes r g b hr hg hb = omega arith

-- The positions of `s` at which `sub` stands.
pub occurrences : Bytes → Bytes → ℕ
occurrences sub [] = if starts_with sub [] then 1 else 0
occurrences sub (c ∷ s) = (if starts_with sub (c ∷ s) then 1 else 0) + occurrences sub s

starts_with_short : (sub s : Bytes) → length s < length sub → starts_with sub s ≡ false
unfolding starts_with
starts_with_short [] s h = absurd (omega arith)
starts_with_short (c ∷ sub) [] h = refl
starts_with_short (c ∷ sub) (d ∷ s) h = ground (arith, starts_with_short sub s)

occurrences_short : (sub s : Bytes) → length s < length sub → occurrences sub s ≡ 0
unfolding occurrences
occurrences_short sub [] h = ground (arith, starts_with_short sub [])
occurrences_short sub (c ∷ s) h =
    ground (arith, starts_with_short sub (c ∷ s), occurrences_short sub s)

tally_from-occurrences :
    (sub p : Bytes) (n result : ℕ)
    → n + length sub ≡ length p + 1
    → tally_from sub p n result ≡ result + occurrences sub p
unfolding tally_from occurrences
tally_from-occurrences sub p zero result h = omega (arith, occurrences_short sub p)
tally_from-occurrences sub [] (suc zero) result h = ground arith
tally_from-occurrences sub [] (suc (suc n)) result h = absurd (omega arith)
tally_from-occurrences sub (c ∷ p) (suc n) result h =
    ground
      (arith, tally_from-occurrences sub p n (result + 1), tally_from-occurrences sub p n result)

-- If `sub` is at most one byte longer than `s`, `Tally` counts every position at which `sub`
-- stands, overlapping ones too.
pub tally-occurrences :
    (s sub : Bytes) → length sub ≤ length s + 1 → tally s sub ≡ ok (occurrences sub s)
unfolding tally
tally-occurrences s sub h =
    ground (arith, tally_from-occurrences sub s (length s + 1 - length sub) 0)
