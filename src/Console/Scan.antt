-- ===== src/Console/Scan.antt =====
-- What `scanf` and `getline` of the libraries take from the console.
use kaya_basic.Base.{
  ℕ, zero, suc, ◌-◌, ◌%◌, ◌^◌, Bool, true, false, ◌&&◌, ◌||◌, Option, none, some, [], ◌∷◌, ltb, leb,
  ◌==◌, if◌then◌else◌, Bytes, Outcome, ok, undefined,
}
use kaya_basic.Cpp.Digits.{value_from}
use kaya_basic.Cpp.Int.{ℤ, pos, negsuc}

-- The bytes that are still to be read, and whether `std::cin` has failed.
pub record Stdin : Type 0 where
  pub rest : Bytes
  pub failed : Bool

abbrev pub is_space : ℕ → Bool
is_space c = c == 32 || (leb 9 c && leb c 13)

abbrev pub is_digit : ℕ → Bool
is_digit c = leb b'0' c && leb c b'9'

unfoldable pub skip_space : Bytes → Bytes
skip_space [] = []
skip_space (c ∷ s) = let rest = skip_space s in if is_space c then rest else c ∷ s

-- The bytes up to the first that fails the test, and the others.
unfoldable pub take_while : (ℕ → Bool) → Bytes → Bytes × Bytes
take_while p [] = ([], [])
take_while p (c ∷ s) = let (w, rest) = take_while p s in if p c then (c ∷ w, rest) else ([], c ∷ s)

-- `%s`; none at the end of the input.
unfoldable pub scan_word : Stdin → Option (Bytes × Stdin)
unfolding take_while
scan_word s =
    let (w, rest) = take_while (λ c. if is_space c then false else true) (skip_space s.rest) in
    elim w [ [] ↦ none | c ∷ w' ↦ some (c ∷ w', record s { rest = rest }) ]

-- The number that digits stand for, with what is behind them; none if there are none.
abbrev pub number_of : Bytes × Bytes → Option (ℕ × Bytes)
number_of ([], rest) = none
number_of (c ∷ w, rest) = some (value_from 10 0 (c ∷ w), rest)

unfoldable pub scan_digits : Bytes → Option (ℕ × Bytes)
unfolding take_while
scan_digits s = number_of (take_while is_digit s)

abbrev pub is_minus : Bytes → Bool
is_minus [] = false
is_minus (c ∷ s) = c == b'-'

abbrev pub unsigned_part : Bytes → Bytes
unsigned_part [] = []
unsigned_part (c ∷ s) = if c == b'-' || c == b'+' then s else c ∷ s

abbrev signed_of : Bool → ℕ → ℤ
signed_of minus zero = pos zero
signed_of minus (suc n) = if minus then negsuc n else pos (suc n)

-- `%d` and `%u`. A number out of the range of the type has no defined result.
unfoldable pub scan_d : Stdin → Outcome (Option ℤ × Stdin)
unfolding scan_digits skip_space
scan_d s =
    let text = skip_space s.rest in
    elim (scan_digits (unsigned_part text)) [
      | none ↦ ok (none, record s { rest = unsigned_part text })
      | some (v, rest) ↦
          if ltb v (2 ^ 31) || (is_minus text && v == 2 ^ 31)
          then ok (some (signed_of (is_minus text) v), record s { rest = rest })
          else undefined
    ]

abbrev pub unsigned_read : Stdin → Bytes → Option (ℕ × Bytes) → Outcome (Option ℕ × Stdin)
unsigned_read s text none = ok (none, record s { rest = unsigned_part text })
unsigned_read s text (some (v, rest)) =
    if ltb v (2 ^ 32)
    then ok (some (if is_minus text then (2 ^ 32 - v) % 2 ^ 32 else v), record s { rest = rest })
    else undefined

unfoldable pub scan_u : Stdin → Outcome (Option ℕ × Stdin)
unfolding scan_digits skip_space
scan_u s = let text = skip_space s.rest in unsigned_read s text (scan_digits (unsigned_part text))

-- `%g`, by a parameter that reads a number at the head of a text.
unfoldable pub scan_g :
    {Single : Type 0} → (Bytes → Option (Single × Bytes)) → Stdin → Option Single × Stdin
unfolding skip_space
scan_g parse s = elim (parse (skip_space s.rest)) [
  | none ↦ (none, record s { rest = skip_space s.rest })
  | some (v, rest) ↦ (some v, record s { rest = rest })
]

-- `getline(ln, n)` with `n - 1` bytes of room: what is stored, what is left, and whether it failed.
unfoldable pub line_from : ℕ → Bytes → Bytes × Bytes × Bool
line_from room [] = ([], [], false)
line_from zero (c ∷ s) = if c == 10 then ([], s, false) else ([], c ∷ s, true)
line_from (suc room) (c ∷ s) =
    let (ln, rest, failed) = line_from room s in
    if c == 10 then ([], s, false) else (c ∷ ln, rest, failed)

-- At the end of the input, and after a failure, nothing is stored.
unfoldable pub get_line : ℕ → Stdin → Bytes × Stdin
unfolding line_from
get_line n s = if s.failed then ([], s) else elim s.rest [
  | [] ↦ ([], record s { failed = true })
  | c ∷ r ↦
      let (ln, rest, failed) = line_from (n - 1) (c ∷ r) in
      (ln, record { rest = rest; failed = failed })
]
