-- ===== src/Strings/Search.antt =====
-- `InStr`, `InStrAny`, `InStrRev` and `InStrRevAny` of lib/System.cpp. Positions count from 1, and
-- 0 stands for "not found".
pub mod Laws
pub mod Backwards
use kaya_basic.Base.{◌==◌, if◌then◌else◌, length, Bytes}
use kaya_basic.Cpp.Int.{ℤ, pos, ◌+ℤ◌, ◌-ℤ◌, ltb_ℤ}
use kaya_basic.Cpp.Floats.{Floats}
use kaya_basic.Cpp.Text.{find, rfind, find_first_of, find_last_of}
use kaya_basic.Cpp.Word.{npos, to_size, to_long}
use kaya_basic.Variant.{Variant, to_string, to_double}

-- `Long pos = …; return pos + 1;`
unfoldable pub one_based : ℤ → ℤ
unfolding ◌+ℤ◌
one_based p = p +ℤ pos 1

module _ (fl : Floats) where
  open fl use {to_long as long_of}

  -- With an empty `s`, the first two arguments are the text to find and the text to search.
  unfoldable pub in_str : Variant fl → Bytes → Bytes → ℤ
  in_str vstart substr s =
      if length s == 0
      then one_based (to_long (find substr (to_string fl vstart) 0))
      else one_based (to_long (find s substr (to_size (long_of (to_double fl vstart) -ℤ pos 1))))

  unfoldable pub in_str_any : Variant fl → Bytes → Bytes → ℤ
  in_str_any vstart substr s =
      if length s == 0
      then one_based (to_long (find_first_of substr (to_string fl vstart) 0))
      else one_based
          (to_long (find_first_of s substr (to_size (long_of (to_double fl vstart) -ℤ pos 1))))

unfoldable pub in_str_rev : Bytes → Bytes → ℤ → ℤ
in_str_rev sub s start =
    if ltb_ℤ start (pos 1)
    then one_based (to_long (rfind s sub npos))
    else one_based (to_long (rfind s sub (to_size (start -ℤ pos 1))))

unfoldable pub in_str_rev_any : Bytes → Bytes → ℤ → ℤ
in_str_rev_any sub s start =
    if ltb_ℤ start (pos 1)
    then one_based (to_long (find_last_of s sub npos))
    else one_based (to_long (find_last_of s sub (to_size (start -ℤ pos 1))))
