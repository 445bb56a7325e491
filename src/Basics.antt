-- ===== src/Basics.antt =====
-- The small functions of lib/System.cpp, and the conversions and joins of lib/core/core.h.
use kaya_basic.Base.{
  Bool, Option, none, some, ◌++◌, ltb, if◌then◌else◌, length, Bytes, codes, Outcome, ok, throws,
  text, undefined, ◌>>=◌,
}
use kaya_basic.Cpp.Floats.{Floats}
use kaya_basic.Cpp.Int.{ℤ, pos}
use kaya_basic.Cpp.Text.{c_str}
use kaya_basic.Objects.{Ptr, Ref}
use kaya_basic.Variant.{Variant, num, str, of_string}

-- What the program was compiled for.
pub data Platform : Type 0 where
  windows mac linux : Platform

unfoldable pub new_line : Platform → Bytes
new_line windows = codes "\r\n"
new_line _ = codes "\n"

unfoldable pub path_sep : Platform → Bytes
path_sep windows = codes "\\"
path_sep _ = codes "/"

unfoldable pub run_as : Platform → Bool → Bytes
run_as windows x86_64 = codes "Windows" ++ (if x86_64 then codes "64" else codes "32")
run_as mac x86_64 = codes "Mac" ++ (if x86_64 then codes "64" else codes "32")
run_as linux x86_64 = codes "Linux" ++ (if x86_64 then codes "64" else codes "32")

-- A text of a null pointer.
unfoldable pub null_string : Outcome Bytes
null_string = undefined

-- `operator->`, in a debug build and in another one.
unfoldable pub arrow : Bool → Ref → Outcome (Option Ptr)
arrow debug r = elim r.ptr [
  | none ↦
      if debug
      then throws (text (codes "attempt to access class member through a null reference"))
      else ok none
  | some p ↦ ok (some p)
]

module _ (fl : Floats) where
  open fl use {Double, print, of_long}

  unfoldable pub i_if : Bool → Variant fl → Variant fl → Variant fl
  i_if cond ontrue onfalse = if cond then ontrue else onfalse

  unfoldable pub val : Bytes → Double
  val s = (of_string fl s).n

  unfoldable pub var_type : Variant fl → ℤ
  var_type v = elim v.vartype [ num ↦ pos 0 | str ↦ pos 1 ]

  -- `sprintf` of `%.16g` into a buffer of 256 bytes.
  unfoldable pub str_of : Double → Outcome Bytes
  str_of n = if ltb (length (print n)) 256 then ok (c_str (print n)) else undefined

  -- `s + n` and `n + s`.
  unfoldable pub join_number : Bytes → Double → Outcome Bytes
  join_number s n = if ltb (length (print n)) 256 then ok (s ++ c_str (print n)) else undefined

  unfoldable pub number_join : Double → Bytes → Outcome Bytes
  number_join n s = if ltb (length (print n)) 256 then ok (c_str (print n) ++ s) else undefined

  -- `Str0`: the format is put together from the texts of two numbers; `sprintf` writes by it.
  unfoldable pub str0 : (Bytes → Double → Bytes) → Double → ℤ → ℤ → Outcome Bytes
  unfolding str_of
  str0 sprintf n len frac = do
    width ← str_of (of_long len)
    digits ← str_of (of_long frac)
    let tmp = sprintf (c_str (codes "%0" ++ width ++ codes "." ++ digits ++ codes "g")) n
    if ltb (length tmp) 256 then ok (c_str tmp) else undefined
