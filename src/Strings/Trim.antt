-- ===== src/Strings/Trim.antt =====
-- `LTrim`, `RTrim` and `Trim` of lib/System.cpp. `LTrim` and `Trim` go through `c_str()`, so that
-- a NUL byte ends what they return.
pub mod Laws
use kaya_basic.Base.{
  ℕ, zero, suc, ◌+◌, ◌-◌, ◌*◌, ◌/◌, ◌%◌, ◌^◌, ◌≤◌, ◌<◌, ◌≢◌, leb, ltb, ◌==◌, ◌||◌, not, [], ◌∷◌,
  ◌++◌, ◌≡◌, refl, sym, ap, ◌∙◌, arith, if◌then◌else◌, length, take, Bool, true, false, none, some,
  Bytes, codes,
}
use kaya_basic.Cpp.Text.{find_last_index?, c_str}

-- The blanks that `LTrim` tests for.
abbrev pub is_blank : ℕ → Bool
is_blank c = c == 32 || c == 9 || c == 10 || c == 13

-- `while (is_blank(*p)) p++;` on what stands before the NUL.
pub skip_blanks : Bytes → Bytes
skip_blanks [] = []
skip_blanks (c ∷ s) = let rest = skip_blanks s in if is_blank c then rest else c ∷ s

unfoldable pub l_trim : Bytes → Bytes
unfolding skip_blanks c_str
l_trim s = skip_blanks (c_str s)

-- `find_last_not_of("\t\r\n ")`
abbrev pub last_not_blank : ℕ → Bool
last_not_blank c = not (c == 9 || c == 13 || c == 10 || c == 32)

unfoldable pub r_trim : Bytes → Bytes
unfolding find_last_index?
r_trim s = elim (find_last_index? last_not_blank s) [ none ↦ [] | some i ↦ take (suc i) s ]

unfoldable pub trim : Bytes → Bytes
unfolding l_trim r_trim c_str
trim s = c_str (r_trim (l_trim s))
