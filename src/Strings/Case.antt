-- ===== src/Strings/Case.antt =====
-- `LCase` and `UCase` of lib/System.cpp, with `tolower` and `toupper` of the C locale.
use kaya_basic.Base.{ℕ, ◌+◌, ◌-◌, leb, ◌&&◌, [], ◌∷◌, ◌≡◌, refl, ap₂, arith, if◌then◌else◌, Bytes}

unfoldable pub to_lower : ℕ → ℕ
to_lower c = if leb b'A' c && leb c b'Z' then c + 32 else c

unfoldable pub to_upper : ℕ → ℕ
to_upper c = if leb b'a' c && leb c b'z' then c - 32 else c

-- The loop writes each byte of the copy in turn.
unfoldable pub l_case : Bytes → Bytes
unfolding to_lower
l_case [] = []
l_case (c ∷ s) = to_lower c ∷ l_case s

unfoldable pub u_case : Bytes → Bytes
unfolding to_upper
u_case [] = []
u_case (c ∷ s) = to_upper c ∷ u_case s

-- Changing case twice is changing it once, to the second case.
pub l_case-u_case : (s : Bytes) → l_case (u_case s) ≡ l_case s
unfolding l_case u_case
l_case-u_case [] = refl
l_case-u_case (c ∷ s) = ap₂ ◌∷◌ (ground arith) (l_case-u_case s)

pub u_case-l_case : (s : Bytes) → u_case (l_case s) ≡ u_case s
unfolding l_case u_case
u_case-l_case [] = refl
u_case-l_case (c ∷ s) = ap₂ ◌∷◌ (ground arith) (u_case-l_case s)
