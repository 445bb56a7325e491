-- ===== src/Strings/Replace.antt =====
-- `Replace` of lib/System.cpp. Its `while` loop runs on fuel; `none` is a loop that still runs.
pub mod Reference
pub mod Laws
pub mod Faults
use kaya_basic.Base.{
  ℕ, zero, suc, true, false, ◌++◌, Option, none, some, if◌then◌else◌, length, Bytes, Outcome, ok,
  throws, undefined, ◌>>=◌,
}
use kaya_basic.Cpp.Int.{ℤ, pos, negsuc, ◌+ℤ◌, ◌-ℤ◌, ltb_ℤ}
use kaya_basic.Cpp.Floats.{Floats}
use kaya_basic.Strings.Search.{in_str}
use kaya_basic.Strings.Slice.{len, left, mid}
use kaya_basic.Variant.{of_long_value}

-- One round: the match at `start` is cut out and the new text put in its place.
unfoldable pub splice : Bytes → Bytes → Bytes → ℤ → Outcome Bytes
splice source old new start = do
  l ← left source (start -ℤ pos 1)
  r ← mid source (len old +ℤ start) (negsuc 0)
  ok (l ++ new ++ r)

module _ (fl : Floats) where
  unfoldable pub replace_from : ℕ → Bytes → Bytes → Bytes → ℤ → Option (Outcome Bytes)
  replace_from zero source old new start = none
  replace_from (suc fuel) source old new start = elim (ltb_ℤ (pos 0) start) [
    | false ↦ some (ok source)
    | true ↦ elim (splice source old new start) [
      | ok source' ↦
          replace_from fuel source' old new
            (in_str fl (of_long_value fl (start +ℤ pos (length new))) old source')
      | throws e ↦ some (throws e)
      | undefined ↦ some undefined
    ]
  ]

  unfoldable pub replace : ℕ → Bytes → Bytes → Bytes → Option (Outcome Bytes)
  unfolding replace_from
  replace fuel source old new =
      replace_from fuel source old new (in_str fl (of_long_value fl (pos 1)) old source)
