-- ===== src/Patterns.antt =====
-- `ReplaceEx`, `SearchEx`, `SearchAllEx` and `Like` of lib/System.cpp, over `std::regex`.
pub mod Laws
use kaya_basic.Base.{
  ℕ, ◌-◌, Bool, true, Option, none, some, List, [], length, Bytes, Outcome, ok, ◌>>=◌,
}
use kaya_basic.Array.{Array, array1, redim1}
use kaya_basic.Array.Fill.{put_all}
use kaya_basic.Cpp.Int.{pos, ◌-ℤ◌}

-- `compile` throws where the pattern is not a regular expression. `replaced` is `regex_replace`,
-- `found` the first match, `matches` what an iterator goes through, and `is_match` is
-- `regex_match`.
pub record Regexes : Type 1 where
  pub Regex : Type 0
  pub compile : Bytes → Outcome Regex
  pub replaced : Bytes → Regex → Bytes → Bytes
  pub found : Bytes → Regex → Option Bytes
  pub matches : Bytes → Regex → List Bytes
  pub is_match : Bytes → Regex → Bool

module _ (rx : Regexes) where
  open rx use {compile, replaced, found, matches, is_match}

  unfoldable pub replace_ex : Bytes → Bytes → Bytes → Outcome Bytes
  replace_ex text pattern new_str = do re ← compile pattern; ok (replaced text re new_str)

  -- `m.str()` is empty where nothing was found.
  unfoldable pub search_ex : Bytes → Bytes → Outcome Bytes
  search_ex text pattern = do
    re ← compile pattern
    ok (elim (found text re) [ some m ↦ m | none ↦ [] ])

  unfoldable pub search_all_ex : Bytes → Bytes → Outcome (Array Bytes)
  unfolding ◌-ℤ◌
  search_all_ex text pattern = do
    re ← compile pattern
    result ← put_all 0 (matches text re) (array1 [] (pos 0) (pos 1024))
    let idx = length (matches text re)
    ok (redim1 [] (pos 0) (pos idx -ℤ pos 1) (record result { preserve = true }))

  unfoldable pub like : Bytes → Bytes → Outcome Bool
  like target pattern = do re ← compile pattern; ok (is_match target re)
