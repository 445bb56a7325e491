-- ===== src/Clock/Laws.antt =====
-- No buffer of `Date`, `FullDate`, `Time` and `Hex` is too short, and what `Hex` writes can be read
-- back.
use kaya_basic.Base.{
  ℕ, suc, ◌+◌, ◌*◌, ◌/◌, ◌%◌, ◌^◌, ◌≤◌, ◌<◌, ◌≡◌, refl, arith, false, Bool-cases, inl, inr, [], ◌∷◌,
  ◌++◌, ltb, ltb→lt, lt→ltb, length, length-append, Bytes, ok,
}
use kaya_basic.Cpp.Digits.{
  digit, digits, decimal, hexadecimal, padded, length-padded, length-decimal-two,
  length-decimal-four, value_from, value-digits, digits-fuel,
}
use kaya_basic.Clock.{Tm, printed_in, date, full_date, time, hex}

printed :
    (size n : ℕ) (s : Bytes)
    → length s ≡ n
    → n < size
    → (t : Bytes) × (printed_in size s ≡ ok t) × (length t ≡ n)
unfolding printed_in
printed size n s e h = (s, rw e (rw (lt→ltb n size h) refl), e)

-- Three numbers with a sign between them.
length_three :
    (w1 w2 w3 a b c : ℕ) (x : ℕ)
    → length (decimal a) ≤ w1
    → length (decimal b) ≤ w2
    → length (decimal c) ≤ w3
    → length (padded w1 a ++ x ∷ [] ++ padded w2 b ++ x ∷ [] ++ padded w3 c) ≡ w1 + w2 + w3 + 2
length_three w1 w2 w3 a b c x ha hb hc = omega (
  arith,
  length-append (padded w1 a ++ x ∷ [] ++ padded w2 b ++ x ∷ []) (padded w3 c),
  length-append (padded w1 a ++ x ∷ [] ++ padded w2 b) (x ∷ []),
  length-append (padded w1 a ++ x ∷ []) (padded w2 b),
  length-append (padded w1 a) (x ∷ []),
  length-padded w1 a ha,
  length-padded w2 b hb,
  length-padded w3 c hc,
)

-- The values that `localtime` gives for a year below 10000.
pub record IsTime (dt : Tm) : Type 0 where
  pub year : dt.tm_year < 8100
  pub mon : dt.tm_mon < 12
  pub mday : dt.tm_mday ≤ 31
  pub hour : dt.tm_hour < 24
  pub min : dt.tm_min < 60
  pub sec : dt.tm_sec ≤ 60

-- At a time of a year below 10000, `Date` and `Time` write 8 bytes and `FullDate` writes 10, inside
-- their buffers.
pub clock-length :
    (dt : Tm)
    → IsTime dt
    → (d : Bytes) × (t : Bytes) × (f : Bytes) × (date dt ≡ ok d)
      × (length d ≡ 8)
      × (time dt ≡ ok t)
      × (length t ≡ 8)
      × (full_date dt ≡ ok f)
      × (length f ≡ 10)
unfolding date time full_date
clock-length dt h =
    let two = length-decimal-two in
    let mon = two (dt.tm_mon + 1) (omega (arith, h.mon)) in
    let mday = two dt.tm_mday (omega (arith, h.mday)) in
    let hour = two dt.tm_hour (omega (arith, h.hour)) in
    let min = two dt.tm_min (omega (arith, h.min)) in
    let sec = two dt.tm_sec (omega (arith, h.sec)) in
    let year = two (dt.tm_year % 100) (omega arith) in
    let long_year = length-decimal-four (1900 + dt.tm_year) (omega (arith, h.year)) in
    let (d, d_ok, d_length) =
      printed 9 8 _
        (length_three 2 2 2 (dt.tm_year % 100) (dt.tm_mon + 1) dt.tm_mday b'/' year mon mday)
        (omega arith) in
    let (t, t_ok, t_length) =
      printed 9 8 _ (length_three 2 2 2 dt.tm_hour dt.tm_min dt.tm_sec b':' hour min sec)
        (omega arith) in
    let (f, f_ok, f_length) =
      printed 11 10 _
        (length_three 4 2 2 (1900 + dt.tm_year) (dt.tm_mon + 1) dt.tm_mday b'/' long_year mon mday)
        (omega arith) in
    (d, t, f, d_ok, d_length, t_ok, t_length, f_ok, f_length)

length-hex-step : (n : ℕ) → 16 ≤ n → length (hexadecimal n) ≡ length (hexadecimal (n / 16)) + 1
unfolding hexadecimal digits
length-hex-step n h =
    let large : ltb n 16 ≡ false = ground arith in
    rw (large, digits-fuel 16 (omega arith) n (suc (n / 16)) (n / 16) (omega arith) (omega arith))
      (omega (arith, length-append (digits (suc (n / 16)) 16 (n / 16)) (digit (n % 16) ∷ [])))

-- Numbers below `b` have at most `k` digits.
abbrev Short : ℕ → ℕ → Type 0
Short b k = (n : ℕ) → n < b → length (hexadecimal n) ≤ k

one-Short : Short 16 1
unfolding hexadecimal digits
one-Short n h = ground arith

longer-Short : (b k : ℕ) → Short b (suc k) → Short (b * 16) (suc (suc k))
longer-Short b k short n h = elim (Bool-cases (ltb n 16)) [
  | inl small ↦ omega (arith, one-Short n (ltb→lt _ _ small))
  | inr large ↦
      let above : 16 ≤ n = ground arith in
      omega (arith, length-hex-step n above, short (n / 16) (omega arith))
]

eight_digits : Short (2 ^ 32) 8
eight_digits = longer-Short (2 ^ 28) 6 (
    longer-Short (2 ^ 24) 5 (
      longer-Short (2 ^ 20) 4 (
        longer-Short (2 ^ 16) 3
          (longer-Short (2 ^ 12) 2 (longer-Short (2 ^ 8) 1 (longer-Short 16 0 one-Short))))))

-- `Hex` of a 32-bit number stays inside its buffer, and its digits have the value of the number.
pub hex-value :
    (n : ℕ) → n < 2 ^ 32 → (s : Bytes) × (hex n ≡ ok s) × (length s ≤ 8) × (value_from 16 0 s ≡ n)
unfolding hex printed_in
hex-value n h =
    let same : n % 2 ^ 32 ≡ n = omega arith in
    let short = eight_digits n h in
    let fits : length (hexadecimal n) < 32 = omega arith in
    (
      hexadecimal n,
      rw (same, lt→ltb _ _ fits) refl,
      short,
      unfold hexadecimal in value-digits 16 (omega arith) (suc n) n (omega arith) (omega arith),
    )
