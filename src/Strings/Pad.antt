-- ===== src/Strings/Pad.antt =====
-- `String`, `Space`, `PadL`, `PadR` and `PadC` of lib/System.cpp.
use native.Mathlib.Nat.{add-zero}
use kaya_basic.Base.{
  ℕ, zero, suc, ◌+◌, ◌-◌, ◌*◌, ◌/◌, ◌%◌, ◌^◌, ◌<◌, ltb, ◌==◌, Bool, copies, copies-append,
  ℕ_discrete, dec_le, [], ◌++◌, ◌≡◌, refl, sym, arith, if◌then◌else◌, length, replicate, append-nil,
  append_assoc, Bytes, Outcome, ok, throws, length_error, ◌>>=◌, ◌>>◌,
}
use kaya_basic.Cpp.Int.{ℤ, pos, pos_part, ◌-ℤ◌, pos-sub-pos, ltb_ℤ}
use kaya_basic.Cpp.Word.{to_size, max_size, Fits}
use kaya_basic.Strings.Slice.{len, len-pos}

-- `reserve` and the constructor that fills refuse what is longer than `max_size()`.
abbrev pub check_length : ℕ → Outcome (Unit {0})
check_length n = if ltb max_size n then throws length_error else ok tt

-- `for (Long i = 0; i < count; i++) result += s;`, for the rounds left.
repeat : ℕ → Bytes → Bytes → Bytes
repeat zero s result = result
repeat (suc k) s result = repeat k s (result ++ s)

-- `String(count, s)`: the argument of `reserve` is a `size_t`.
unfoldable pub string : ℤ → Bytes → Outcome Bytes
unfolding repeat
string count s = do
  check_length ((length s * to_size count + 1) % 2 ^ 64)
  ok (repeat (pos_part count) s [])

unfoldable pub space : ℤ → Outcome Bytes
space count = do check_length (to_size count); ok (replicate (to_size count) 32)

unfoldable pub pad_l : Bytes → ℤ → Bytes → Outcome Bytes
pad_l s n c = if ltb_ℤ n (len s) then ok s else (do p ← string (n -ℤ len s) c; ok (p ++ s))

unfoldable pub pad_r : Bytes → ℤ → Bytes → Outcome Bytes
pad_r s n c = if ltb_ℤ n (len s) then ok s else (do p ← string (n -ℤ len s) c; ok (s ++ p))

-- `/` and `%` of the `Long` in `PadC`, where it is not negative.
abbrev half : ℤ → ℤ
half z = pos (pos_part z / 2)

abbrev is_odd : ℤ → Bool
is_odd z = pos_part z % 2 == 1

unfoldable pub pad_c : Bytes → ℤ → Bytes → Outcome Bytes
pad_c s n c = if ltb_ℤ n (len s) then ok s else (do
  pad ← string (half (n -ℤ len s)) c
  ok (if is_odd (n -ℤ len s) then (pad ++ s ++ pad) ++ c else pad ++ s ++ pad))

copies_none : (k : ℕ) (s : Bytes) → k ≡ 0 → copies k s ≡ []
copies_none zero s h = refl
copies_none (suc k) s h = absurd (omega arith)

repeat-copies : (k : ℕ) (s result : Bytes) → repeat k s result ≡ result ++ copies k s
unfolding repeat
repeat-copies zero s result = sym (append-nil result)
repeat-copies (suc k) s result = rw (repeat-copies k s (result ++ s), append_assoc)

pub string-copies :
    (k : ℕ) (s : Bytes) → k < 2 ^ 63 → length s * k < max_size → string (pos k) s ≡ ok (copies k s)
unfolding string
string-copies k s h f =
    let e : k % 2 ^ 64 ≡ k = omega arith in rw (e, repeat-copies k s []) (ground arith)

module _ (s c : Bytes) (n : ℕ) (f : Fits s) (h : n < 2 ^ 63)
    (k : length c * (n - length s) < max_size) where
  -- `PadL` puts `n - Len(s)` copies of `c` before the string, none where it is as long already, if
  -- the copies fit in a string.
  pub pad_l-copies : pad_l s (pos n) c ≡ ok (copies (n - length s) c ++ s)
  unfolding pad_l
  pad_l-copies = rw (len-pos s f) (
      ground (
        arith,
        pos-sub-pos n (length s),
        string-copies (n - length s) c,
        copies_none (n - length s) c,
      ))

  -- `PadR` puts `n - Len(s)` copies of `c` behind the string, none where it is as long already, if
  -- the copies fit in a string.
  pub pad_r-copies : pad_r s (pos n) c ≡ ok (s ++ copies (n - length s) c)
  unfolding pad_r
  pad_r-copies = rw (len-pos s f) (
      ground (
        arith,
        pos-sub-pos n (length s),
        string-copies (n - length s) c,
        copies_none (n - length s) c,
        append-nil s,
      ))

  half_fits : length c * ((n - length s) / 2) < max_size
  half_fits = grind arith

-- The last of the copies split off.
copies-add-one : (k : ℕ) (s : Bytes) → copies (k + 1) s ≡ copies k s ++ s
copies-add-one k s = let e : k + 1 ≡ suc k = omega arith in rw e (sym (copies-append k s))

odd_half :
    (s c : Bytes) (h d : ℕ)
    → ok (if d % 2 == 1 then copies h c ++ s ++ copies h c ++ c else copies h c ++ s ++ copies h c)
      ≡ ok (copies h c ++ s ++ copies (h + d % 2) c)
odd_half s c h d = elim (ℕ_discrete (d % 2) 1) [
  | yes e ↦ rw (e, copies-add-one h c) (rw (← append_assoc))
  | no ne ↦ let e : d % 2 ≡ 0 = omega arith in rw (e, add-zero)
]

-- `PadC` puts half of the `n - Len(s)` copies on each side, and the odd one at the end, if the
-- copies fit in a string.
pub pad_c-copies :
    (s c : Bytes) (n : ℕ)
    → Fits s
    → n < 2 ^ 63
    → length c * (n - length s) < max_size
    → pad_c s (pos n) c
      ≡ ok
          (copies ((n - length s) / 2) c ++ s ++ copies ((n - length s) / 2 + (n - length s) % 2) c)
unfolding pad_c
pad_c-copies s c n f h k = elim (dec_le (length s) n) [
  | yes le ↦
      rw
        (
          len-pos s f,
          pos-sub-pos n (length s) le,
          string-copies ((n - length s) / 2) c (omega arith) (half_fits s c n f h k),
        )
        (ground (arith, odd_half s c ((n - length s) / 2) (n - length s)))
  | no gt ↦
      let e : n - length s ≡ 0 = omega arith in rw (len-pos s f, e) (ground (arith, append-nil s))
]
