-- ===== src/Examples/Texts.antt =====
-- Format, the clock and the console at concrete texts.
use kaya_basic.Base.{
  ℕ, zero, suc, length-replicate, ◌≤◌, ◌≡◌, refl, arith, false, [], ◌∷◌, ◌++◌, length, replicate,
  take, drop, Bytes, codes, ok,
}
use kaya_basic.Cpp.Text.{c_str}
use kaya_basic.Cpp.Digits.{padded, decimal, digits, value_from}
use kaya_basic.Clock.{Tm, date, hex, printed_in}
use kaya_basic.Clock.Laws.{hex-value}
use kaya_basic.Format.{format, read_mask, read_one}
use kaya_basic.Format.Laws.{thousands, format-thousands}
use kaya_basic.Format.Dollars.{format-two_dollars}
use kaya_basic.Console.{print_string, input_line}
use kaya_basic.Console.Scan.{Stdin}
use kaya_basic.Console.Laws.{OneLine, input_line-print, input_line-long}

-- 1234567.25, as `sprintf` writes it with two decimals.
abbrev fixed : ℕ → ℕ → Bytes
fixed decimals n = decimal n ++ codes ".25"

format-thousands_example :
    format fixed 1234 (codes "$ .##") ≡ ok (codes " $" ++ thousands 1235 1234 ++ codes ".25")
unfolding read_mask read_one c_str thousands decimal digits
format-thousands_example =
    format-thousands fixed 1234 (codes "$ .##") 1234 (codes ".25") (omega arith) refl refl
      (omega arith, (omega arith, (omega arith, tt))) (omega arith) (omega arith)

format-two_dollars_example : format fixed 1234 (codes "$$") ≡ ok (replicate 0 32 ++ 36 ∷ [])
unfolding read_mask read_one c_str decimal digits
format-two_dollars_example = format-two_dollars fixed 1234 (codes "$$") (omega arith) (omega arith)

-- 2026-11-26, 02:45:59.
abbrev morning : Tm
morning = record { tm_year = 126; tm_mon = 10; tm_mday = 26; tm_hour = 2; tm_min = 45; tm_sec = 59 }

date_test : date morning ≡ ok (codes "26/11/26")
unfolding date padded decimal digits printed_in
date_test = refl

hex-value_example : (s : Bytes) × (hex 48879 ≡ ok s) × (length s ≤ 8) × (value_from 16 0 s ≡ 48879)
hex-value_example = hex-value 48879 (omega arith)

abbrev console : Bytes → Stdin
console s = record { rest = s; failed = false }

input_line-print_example :
    input_line (console (print_string (codes "anna") [] ++ 10 ∷ codes "17"))
    ≡ (codes "anna", console (codes "17"))
input_line-print_example =
    input_line-print (codes "anna") (codes "17")
      (omega arith, (omega arith, (omega arith, (omega arith, tt))))
      (omega arith, (omega arith, (omega arith, (omega arith, tt)))) (omega arith)

-- `k` times an "a".
abbrev letters : ℕ → Bytes
letters k = replicate k 97

letters-OneLine : (k : ℕ) → OneLine (letters k)
letters-OneLine zero = tt
letters-OneLine (suc k) = (omega arith, letters-OneLine k)

input_line-long_example :
    let (ln, s) = input_line (console (letters 3000 ++ codes "\nnext")) in
    (ln ≡ c_str (take 2047 (letters 3000)))
    × (s.rest ≡ drop 2047 (letters 3000) ++ codes "\nnext")
    × (input_line s ≡ ([], s))
input_line-long_example =
    input_line-long (letters 3000) (codes "\nnext") (letters-OneLine 3000)
      (omega (arith, length-replicate {A = ℕ} 3000 97))
