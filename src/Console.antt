-- ===== src/Console.antt =====
-- `Print` and `Input` of lib/core/core.cpp, on what `printf`, `scanf` and `getline` do to the
-- console.
pub mod Scan
pub mod Laws
use kaya_basic.Base.{
  ℕ, suc, ◌+◌, ◌-◌, ◌%◌, ◌^◌, ◌<◌, Bool, true, false, not, Option, none, some, List, [], ◌∷◌, ◌++◌,
  ltb, ◌==◌, if◌then◌else◌, length, Bytes, Outcome, ok, undefined, ◌>>=◌,
}
use kaya_basic.Cpp.Floats.{Floats}
use kaya_basic.Cpp.Int.{ℤ, pos, negsuc, eqb_ℤ}
use kaya_basic.Cpp.Text.{c_str}
use kaya_basic.Cpp.Word.{to_size}
use kaya_basic.Console.Scan.{Stdin, scan_word, scan_d, scan_u, scan_g, get_line}
use kaya_basic.Variant.{Variant, VarType, num, str, of_string, assign}

-- `Print::operator<<`: the output so far, and what is appended to it.
unfoldable pub print_string : Bytes → Bytes → Bytes
print_string v out = out ++ c_str v

unfoldable pub print_chars : Bytes → Bytes → Bytes
print_chars v out = out ++ c_str v

module _ (fl : Floats) where
  open fl use {print}

  unfoldable pub print_variant : Variant fl → Bytes → Bytes
  print_variant v out = elim v.vartype [ num ↦ out ++ print v.n | str ↦ out ++ c_str v.s ]

-- `Input::line`
unfoldable pub input_line : Stdin → Bytes × Stdin
input_line s = let (ln, s') = get_line 2048 s in (c_str ln, s')

-- A word goes into a buffer of 256 bytes; at the end of the input the buffer stays as it was made.
unfoldable pub input_string : Stdin → Outcome (Bytes × Stdin)
input_string s = elim (scan_word s) [
  | none ↦ undefined
  | some (w, s') ↦ if ltb (length w) 256 then ok (c_str w, s') else undefined
]

unfoldable pub input_variant : (fl : Floats) → Stdin → Outcome (Variant fl × Stdin)
input_variant fl s = do (w, s') ← input_string s; ok (assign fl (of_string fl w), s')

-- What was never written is not to be read.
abbrev written : {A : Type 0} → Option A × Stdin → Outcome (A × Stdin)
written (none, s) = undefined
written (some v, s) = ok (v, s)

-- The unsigned types, which keep the low bits of the `unsigned int`.
unfoldable pub input_uchar : Stdin → Outcome (ℕ × Stdin)
input_uchar s = do r ← scan_u s; (tmp, s') ← written r; ok (tmp % 2 ^ 8, s')

unfoldable pub input_ushort : Stdin → Outcome (ℕ × Stdin)
input_ushort s = do r ← scan_u s; (tmp, s') ← written r; ok (tmp % 2 ^ 16, s')

-- `%U` is no conversion.
unfoldable pub input_ulong : ℕ → Stdin → Outcome (ℕ × Stdin)
input_ulong n s = undefined

-- The low 16 bits, read with a sign.
abbrev pub to_short : ℤ → ℤ
to_short z = let w = to_size z % 2 ^ 16 in if ltb w (2 ^ 15) then pos w else negsuc (2 ^ 16 - 1 - w)

unfoldable pub input_short : Stdin → Outcome (ℤ × Stdin)
input_short s = do r ← scan_d s; (tmp, s') ← written r; ok (to_short tmp, s')

-- Without a number, the variable keeps its value.
unfoldable pub input_int : ℤ → Stdin → Outcome (ℤ × Stdin)
input_int n s = do (r, s') ← scan_d s; ok (elim r [ none ↦ n | some v ↦ v ], s')

unfoldable pub input_bool : Stdin → Outcome (Bool × Stdin)
input_bool s = do r ← scan_d s; (tmp, s') ← written r; ok (not (eqb_ℤ tmp (pos 0)), s')

-- `parse_float` is what `%g` reads, and `widen` the conversion of a `float`.
module _ {Single Double : Type 0} (parse_float : Bytes → Option (Single × Bytes))
    (widen : Single → Double) where
  unfoldable pub input_float : Single → Stdin → Outcome (Single × Stdin)
  input_float n s = let (r, s') = scan_g parse_float s in ok (elim r [ none ↦ n | some v ↦ v ], s')

  -- `double` and `long double` go through a `float`.
  unfoldable pub input_double : Stdin → Outcome (Double × Stdin)
  input_double s = do (tmp, s') ← written (scan_g parse_float s); ok (widen tmp, s')
