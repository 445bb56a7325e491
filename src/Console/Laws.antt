-- ===== src/Console/Laws.antt =====
-- What is printed can be read again, and what a buffer that is too short does.
use kaya_basic.Base.{
  ℕ, zero, suc, ◌-◌, ◌%◌, ◌^◌, ◌≤◌, ◌<◌, ◌≢◌, ◌≡◌, refl, ap, ◌∙◌, arith, Bool, true, false, Option,
  some, List, [], ◌∷◌, ◌++◌, lt→ltb, length, length-append, take, drop, All, Bytes, Outcome, ok,
}
use kaya_basic.Cpp.Text.{c_str}
use kaya_basic.Cpp.Digits.{
  decimal, AllDigits, decimal-AllDigits, length-decimal, value-decimal, value_from,
}
use kaya_basic.Strings.Trim.Laws.{NoNul, c_str_lem}
use kaya_basic.Console.Scan.{
  Stdin, is_digit, skip_space, take_while, scan_digits, number_of, unsigned_read, scan_u,
  unsigned_part, is_minus, get_line, line_from,
}
use kaya_basic.Console.{print_string, input_line, input_uchar, input_ushort}

-- One line: no byte is a line feed.
abbrev pub OneLine : Bytes → Type 0
OneLine = All (λ c. c ≢ 10)

line_from-short :
    (room : ℕ) (l r : Bytes)
    → OneLine l
    → length l ≤ room
    → line_from room (l ++ 10 ∷ r) ≡ (l, r, false)
unfolding line_from
line_from-short zero [] r h le = refl
line_from-short (suc room) [] r h le = refl
line_from-short zero (c ∷ l) r h le = absurd (omega arith)
line_from-short (suc room) (c ∷ l) r (h, hs) le =
    rw (line_from-short room l r hs (omega arith)) (ground arith)

line_from-long :
    (room : ℕ) (l r : Bytes)
    → OneLine l
    → room < length l
    → line_from room (l ++ r) ≡ (take room l, drop room l ++ r, true)
unfolding line_from
line_from-long room [] r h lt = absurd (omega arith)
line_from-long zero (c ∷ l) r (h, hs) lt = ground arith
line_from-long (suc room) (c ∷ l) r (h, hs) lt =
    rw (line_from-long room l r hs (omega arith)) (ground arith)

get_line_lem :
    (n : ℕ) (t ln rest : Bytes) (failed : Bool)
    → length t ≢ 0
    → line_from (n - 1) t ≡ (ln, rest, failed)
    → get_line n (record { rest = t; failed = false })
      ≡ (ln, record { rest = rest; failed = failed })
unfolding get_line
get_line_lem n [] ln rest failed ne e = absurd (ne refl)
get_line_lem n (c ∷ t) ln rest failed ne e = rw e refl

-- A line without NUL and shorter than 2048 bytes that was printed, with a line feed behind it, is
-- what `line` reads, and what follows is left to be read.
pub input_line-print :
    (l r : Bytes)
    → NoNul l
    → OneLine l
    → length l < 2048
    → input_line (record { rest = print_string l [] ++ 10 ∷ r; failed = false })
      ≡ (l, record { rest = r; failed = false })
unfolding input_line print_string
input_line-print l r nn one lt =
    let read =
      get_line_lem 2048 (l ++ 10 ∷ r) l r false (omega (arith, length-append l (10 ∷ r)))
        (line_from-short 2047 l r one (omega arith)) in
    rw (c_str_lem l nn, read, c_str_lem l nn) refl

-- When a line goes on for 2048 bytes or more, whatever comes behind them, line feeds included,
-- `line` has read the first 2047 of them, and every `line` from then on reads nothing, although the
-- rest is still there.
pub input_line-long :
    (l r : Bytes)
    → OneLine l
    → 2048 ≤ length l
    → let (ln, s) = input_line (record { rest = l ++ r; failed = false }) in
      (ln ≡ c_str (take 2047 l)) × (s.rest ≡ drop 2047 l ++ r) × (input_line s ≡ ([], s))
unfolding input_line
input_line-long l r one le =
    let read =
      get_line_lem 2048 (l ++ r) (take 2047 l) (drop 2047 l ++ r) true
        (omega (arith, length-append l r)) (line_from-long 2047 l r one (omega arith)) in
    rw read (refl, refl, unfold get_line c_str in refl)

-- The byte behind a number is not a digit.
abbrev pub EndsNumber : Bytes → Type 0
EndsNumber [] = Unit
EndsNumber (c ∷ s) = is_digit c ≡ false

take_while-digits :
    (s r : Bytes) → AllDigits s → EndsNumber r → take_while is_digit (s ++ r) ≡ (s, r)
unfolding take_while
take_while-digits [] [] h e = refl
take_while-digits [] (c ∷ r) h e = ground (arith, e)
take_while-digits (c ∷ s) r (h, hs) e = rw (take_while-digits s r hs e) (ground arith)

digit_first :
    (c : ℕ) (s : Bytes)
    → b'0' ≤ c
    → (skip_space (c ∷ s) ≡ c ∷ s) × (unsigned_part (c ∷ s) ≡ c ∷ s) × (is_minus (c ∷ s) ≡ false)
unfolding skip_space
digit_first c s h = (ground arith, ground arith, ground arith)

scan_digits_lem :
    (c : ℕ) (s r : Bytes)
    → AllDigits (c ∷ s)
    → EndsNumber r
    → scan_digits (c ∷ s ++ r) ≡ some (value_from 10 0 (c ∷ s), r)
unfolding scan_digits
scan_digits_lem c s r h e = ap number_of (take_while-digits (c ∷ s) r h e)

scan_u-digits :
    (s r : Bytes)
    → AllDigits s
    → length s ≢ 0
    → EndsNumber r
    → value_from 10 0 s < 2 ^ 32
    → scan_u (record { rest = s ++ r; failed = false })
      ≡ ok (some (value_from 10 0 s), record { rest = r; failed = false })
unfolding scan_u
scan_u-digits [] r h ne e b = absurd (ne refl)
scan_u-digits (c ∷ s) r h ne e b =
    let (text, plain, positive) = digit_first c (s ++ r) h.0.0 in
    let state : Stdin = record { rest = c ∷ (s ++ r); failed = false } in
    let read : List ℕ → Option (ℕ × Bytes) → Outcome (Option ℕ × Stdin) = unsigned_read state in
    ap (λ t. read t (scan_digits (unsigned_part t))) text
    ∙ ap (λ t. read (c ∷ (s ++ r)) (scan_digits t)) plain
    ∙ ap (read (c ∷ (s ++ r))) (scan_digits_lem c s r h e)
    ∙ rw (lt→ltb _ _ b, positive) refl

-- A number that was printed in decimal and has no digit behind it is read modulo 256 into an
-- `unsigned char` and modulo 65536 into an `unsigned short`, as long as an `unsigned int` holds it.
pub input_uchar-decimal :
    (n : ℕ) (r : Bytes)
    → n < 2 ^ 32
    → EndsNumber r
    → let s : Stdin = record { rest = decimal n ++ r; failed = false } in
      let s' : Stdin = record { rest = r; failed = false } in
      (input_uchar s ≡ ok (n % 256, s')) × (input_ushort s ≡ ok (n % 65536, s'))
unfolding input_uchar input_ushort
input_uchar-decimal n r h e =
    let value = value-decimal n in
    let read =
      scan_u-digits (decimal n) r (decimal-AllDigits n) (length-decimal n) e (rw value h) in
    rw (read, value) (refl, refl)
