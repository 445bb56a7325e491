-- ===== src/Strings/Slice.antt =====
-- Parts of a string: `Left`, `Mid`, `Right`, `Delete`, `Insert`, `Len`, `Asc`, `Chr`, `Reverse`,
-- `StartsWith` and `EndsWith` of lib/System.cpp. Positions and counts are `Long`; a call of
-- `std::string` takes them as `size_t`.
pub mod Laws
use kaya_basic.Base.{
  ℕ, zero, suc, ◌+◌, ◌-◌, Bool, true, false, ◌||◌, [], ◌∷◌, ltb, ◌≡◌, arith, if◌then◌else◌, length,
  get_or, Bytes, Outcome, ok, throws, out_of_range, ◌>>=◌,
}
use kaya_basic.Cpp.Int.{ℤ, pos, ◌-ℤ◌, ltb_ℤ}
use kaya_basic.Cpp.Word.{npos, to_size, to_long, Fits}
use kaya_basic.Cpp.Text
use kaya_basic.Cpp.Text.{substr, equal}

unfoldable pub len : Bytes → ℤ
len s = to_long (length s)

pub len-pos : (s : Bytes) → Fits s → len s ≡ pos (length s)
unfolding len
len-pos s f = ground arith

-- `count > s.length()` compares as `size_t`.
unfoldable pub left : Bytes → ℤ → Outcome Bytes
unfolding substr
left s count =
    let n = if ltb (length s) (to_size count) then to_long (length s) else count in
    substr s 0 (to_size n)

unfoldable pub mid : Bytes → ℤ → ℤ → Outcome Bytes
unfolding substr len ◌-ℤ◌
mid s start count =
    if ltb_ℤ start (pos 1) || ltb_ℤ (len s) start
    then ok []
    else substr s (to_size (start -ℤ pos 1)) (to_size count)

-- Here `count > len` compares as `Long`.
unfoldable pub right : Bytes → ℤ → Outcome Bytes
unfolding substr len ◌-ℤ◌
right s count =
    let n = if ltb_ℤ (len s) count then len s else count in
    substr s (to_size (len s -ℤ n)) (to_size n)

unfoldable pub delete : Bytes → ℤ → ℤ → Outcome Bytes
unfolding Text.erase ◌-ℤ◌
delete s start n = Text.erase s (to_size (start -ℤ pos 1)) (to_size n)

unfoldable pub insert : Bytes → Bytes → ℤ → Outcome Bytes
unfolding Text.insert ◌-ℤ◌
insert s sub p = Text.insert s (to_size (p -ℤ pos 1)) sub

-- The loop `result[i] = s[len - i - 1]` over `i` from `i` on, for the `n` rounds left.
reverse_from : Bytes → ℕ → ℕ → Bytes
reverse_from s zero i = []
reverse_from s (suc n) i = get_or s (length s - i - 1) 0 ∷ reverse_from s n (i + 1)

unfoldable pub reverse : Bytes → Bytes
unfolding reverse_from
reverse s = reverse_from s (length s) 0

unfoldable pub starts_with : Bytes → Bytes → Outcome Bool
unfolding substr
starts_with s chk =
    if ltb (length s) (length chk)
    then ok false
    else (do t ← substr s 0 (length chk); ok (equal t chk))

unfoldable pub ends_with : Bytes → Bytes → Outcome Bool
unfolding substr
ends_with s chk =
    if ltb (length s) (length chk)
    then ok false
    else (do t ← substr s (length s - length chk) npos; ok (equal t chk))

-- `s.at(0)`.
unfoldable pub asc : Bytes → Outcome ℕ
asc [] = throws out_of_range
asc (c ∷ s) = ok c

unfoldable pub chr : ℕ → Bytes
chr n = n ∷ []
