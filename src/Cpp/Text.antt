-- ===== src/Cpp/Text.antt =====
-- `std::string` as a list of bytes: the member functions that the program calls.
pub mod Find
use kaya_basic.Base.{
  ℕ, zero, suc, ◌+◌, ◌-◌, ◌≤◌, min, Bool, true, false, ◌&&◌, ◌||◌, Option, none, some, List, [],
  ◌∷◌, ◌++◌, ltb, leb, ◌==◌, if◌then◌else◌, length, take, drop, take_all, length-drop, arith, ◌≡◌,
  Bytes, Outcome, ok, throws, out_of_range,
}
use kaya_basic.Cpp.Word.{npos, Fits}
use mathlib.Core.Option

-- Does `s` begin with `pat`?
unfoldable pub starts_with : Bytes → Bytes → Bool
starts_with [] s = true
starts_with (c ∷ pat) [] = false
starts_with (c ∷ pat) (d ∷ s) = c == d && starts_with pat s

-- The first match of `pat`.
unfoldable pub find? : Bytes → Bytes → Option ℕ
find? pat [] = if starts_with pat [] then some 0 else none
find? pat (c ∷ s) = if starts_with pat (c ∷ s) then some 0 else Option.map suc (find? pat s)

-- The last match of `pat` that begins at `k` or before.
unfoldable pub rfind? : Bytes → Bytes → ℕ → Option ℕ
rfind? pat s zero = if starts_with pat s then some 0 else none
rfind? pat s (suc k) = if starts_with pat (drop (suc k) s) then some (suc k) else rfind? pat s k

-- The first byte that passes a test.
unfoldable pub find_index? : (ℕ → Bool) → Bytes → Option ℕ
find_index? p [] = none
find_index? p (c ∷ s) = if p c then some 0 else Option.map suc (find_index? p s)

-- The last byte that passes a test.
unfoldable pub find_last_index? : (ℕ → Bool) → Bytes → Option ℕ
find_last_index? p [] = none
find_last_index? p (c ∷ s) = elim (find_last_index? p s) [
  | some i ↦ some (suc i)
  | none ↦ if p c then some 0 else none
]

-- `operator==`.
unfoldable pub equal : Bytes → Bytes → Bool
equal [] [] = true
equal [] (d ∷ t) = false
equal (c ∷ s) [] = false
equal (c ∷ s) (d ∷ t) = c == d && equal s t

unfoldable pub mem_byte : ℕ → Bytes → Bool
mem_byte c [] = false
mem_byte c (d ∷ s) = c == d || mem_byte c s

abbrev pub position : Option ℕ → ℕ
position none = npos
position (some i) = i

-- `find`, `rfind`, `find_first_of`, `find_last_of`, `find_last_not_of`; the position is a `size_t`.
unfoldable pub find : Bytes → Bytes → ℕ → ℕ
find s pat p =
    if leb p (length s) then position (Option.map (λ i. i + p) (find? pat (drop p s))) else npos

unfoldable pub rfind : Bytes → Bytes → ℕ → ℕ
rfind s pat p =
    if leb (length pat) (length s)
    then position (rfind? pat s (min p (length s - length pat)))
    else npos

unfoldable pub find_first_of : Bytes → Bytes → ℕ → ℕ
find_first_of s set p =
    if leb p (length s)
    then position (Option.map (λ i. i + p) (find_index? (λ c. mem_byte c set) (drop p s)))
    else npos

unfoldable pub find_last_of : Bytes → Bytes → ℕ → ℕ
find_last_of s set p = position (find_last_index? (λ c. mem_byte c set) (take (suc p) s))

unfoldable pub substr : Bytes → ℕ → ℕ → Outcome Bytes
substr s p n = if ltb (length s) p then throws out_of_range else ok (take n (drop p s))

-- The rest of a string, asked for by the largest count or by one that is too large.
pub substr-drop :
    (s : Bytes) (p : ℕ)
    → Fits s
    → substr s p npos ≡ (if ltb (length s) p then throws out_of_range else ok (drop p s))
unfolding substr
substr-drop s p f = rw (take_all npos (drop p s) (omega (arith, length-drop p s)))

unfoldable pub erase : Bytes → ℕ → ℕ → Outcome Bytes
erase s p n = if ltb (length s) p then throws out_of_range else ok (take p s ++ drop n (drop p s))

unfoldable pub insert : Bytes → ℕ → Bytes → Outcome Bytes
insert s p t = if ltb (length s) p then throws out_of_range else ok (take p s ++ t ++ drop p s)

-- `c_str()` read as a C string: what stands before the first NUL.
unfoldable pub c_str : Bytes → Bytes
c_str [] = []
c_str (c ∷ s) = let rest = c_str s in if c == 0 then [] else c ∷ rest
