-- ===== src/Strings/Split.antt =====
-- `Split`, `SplitAny` and `Join` of lib/System.cpp. The `while` loops run on fuel; `none` is a loop
-- that still runs.
pub mod Reference
pub mod Steps
pub mod Rounds
pub mod Any
pub mod Laws
pub mod Joined
use kaya_basic.Base.{
  ℕ, zero, suc, ◌+◌, true, false, [], ◌++◌, Option, none, some, if◌then◌else◌, Bytes, Outcome, ok,
  throws, undefined, ◌>>=◌,
}
use kaya_basic.Array.{Array, array1, redim1, put, get, lbound, ubound}
use kaya_basic.Cpp.Floats.{Floats}
use kaya_basic.Cpp.Int.{ℤ, pos, negsuc, pos_part, ◌+ℤ◌, ◌-ℤ◌, ltb_ℤ, eqb_ℤ}
use kaya_basic.Cpp.Word.{to_size, to_int}
use kaya_basic.Strings.Search.{in_str, in_str_any}
use kaya_basic.Strings.Slice.{len, left, mid}
use kaya_basic.Variant.{of_string}

-- One round: the part before the separator at `p` goes to `dest(idx)`, and `skip` bytes of
-- separator are passed over.
unfoldable pub cut : Array Bytes → Bytes → ℤ → ℤ → ℤ → Outcome (Array Bytes × Bytes)
cut dest item p idx skip = do
  ti ← if eqb_ℤ p (pos 1) then ok [] else left item (p -ℤ pos 1)
  dest' ← put dest idx ti
  item' ← mid item (p +ℤ skip) (len item)
  ok (dest', item')

-- The last part, and the array cut down to the parts.
unfoldable pub finish : Array Bytes → Bytes → ℤ → Outcome (Array Bytes)
finish dest item idx = do
  dest' ← put dest idx item
  ok (redim1 [] idx (pos 0) (record dest' { preserve = true }))

module _ (search : Bytes → ℤ) (skip : ℤ) where
  -- The loop from `idx` on, with `search` for `Integer iPos = InStr(sep, item, "")`.
  unfoldable pub split_from : ℕ → Bytes → ℤ → Array Bytes → Option (Outcome (Array Bytes))
  split_from zero item idx dest = none
  split_from (suc fuel) item idx dest = elim (ltb_ℤ (pos 0) (search item)) [
    | false ↦ some (finish dest item (idx +ℤ pos 1))
    | true ↦ elim (cut dest item (search item) (idx +ℤ pos 1) skip) [
      | ok (dest', item') ↦ split_from fuel item' (idx +ℤ pos 1) dest'
      | throws e ↦ some (throws e)
      | undefined ↦ some undefined
    ]
  ]

module _ (fl : Floats) where
  unfoldable pub search_sep : Bytes → Bytes → ℤ
  search_sep sep item = to_int (to_size (in_str fl (of_string fl sep) item []))

  unfoldable pub search_any : Bytes → Bytes → ℤ
  search_any sep item = to_int (to_size (in_str_any fl (of_string fl sep) item []))

  unfoldable pub split : ℕ → Bytes → Bytes → Option (Outcome (Array Bytes))
  split fuel src sep =
      split_from (search_sep sep) (len sep) fuel src (negsuc 0) (array1 [] (pos 1024) (pos 0))

  unfoldable pub split_any : ℕ → Bytes → Bytes → Option (Outcome (Array Bytes))
  split_any fuel src sep =
      split_from (search_any sep) (pos 1) fuel src (negsuc 0) (array1 [] (pos 1024) (pos 0))

-- `for (int idx = lbound; idx <= ubound; idx++)`, for the rounds left.
unfoldable pub join_from : ℕ → ℤ → Array Bytes → Bytes → Bytes → Outcome Bytes
join_from zero idx dest sep result = ok result
join_from (suc k) idx dest sep result = do
  item ← get dest idx
  join_from k (idx +ℤ pos 1) dest sep
      ((if ltb_ℤ (pos 0) idx then result ++ sep else result) ++ item)

unfoldable pub join : Array Bytes → Bytes → Outcome Bytes
join dest sep = join_from (pos_part (ubound dest +ℤ pos 1 -ℤ lbound dest)) (lbound dest) dest sep []
