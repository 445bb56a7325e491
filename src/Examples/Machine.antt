-- ===== src/Examples/Machine.antt =====
-- The keyboard, regular expressions and random numbers at concrete runs.
use kaya_basic.Base.{ℕ, ◌<◌, ◌≡◌, refl, arith, true, false, none, some, [], ◌∷◌, codes, ok}
use kaya_basic.Array.Parts.{parts_array}
use kaya_basic.Cpp.Int.{ℤ, pos}
use kaya_basic.Libraries.{Loaded}
use kaya_basic.Maths.{Reals, rnd}
use kaya_basic.Maths.Laws.{rnd-range}
use kaya_basic.Patterns.{Regexes, search_all_ex}
use kaya_basic.Patterns.Laws.{search_all_ex-matches}
use kaya_basic.Terminal.{Terminal, in_stat, in_key, in_key-first}

abbrev keyboard : Terminal
keyboard = record { icanon = true; echo = true; nonblock = false; waiting = [] }

in_key-first_test :
    (in_stat 113 keyboard ≡ (false, keyboard))
    × (in_key 113 keyboard ≡ ([], keyboard))
    × (in_stat 113 (record keyboard { waiting = codes "yn" })
        ≡ (true, record keyboard { waiting = codes "yn" }))
    × (in_key 113 (record keyboard { waiting = codes "yn" })
        ≡ (codes "y", record keyboard { waiting = codes "n" }))
in_key-first_test = in_key-first 113 keyboard b'y' (codes "n")

-- A pattern is one byte that matches itself.
abbrev bytes_only : Regexes
bytes_only = record {
  Regex = ℕ;
  compile = λ p. elim p [ [] ↦ ok 0 | c ∷ _ ↦ ok c ];
  replaced = λ s re new. s;
  found = λ s re. none;
  matches = λ s re. (re ∷ []) ∷ (re ∷ []) ∷ [];
  is_match = λ s re. false;
}

search_all_ex-matches_example :
    search_all_ex bytes_only (codes "aha") (codes "a")
    ≡ ok (parts_array (codes "a" ∷ codes "a" ∷ []))
search_all_ex-matches_example = search_all_ex-matches bytes_only (codes "aha") (codes "a") 97 refl

-- Whole numbers in place of floating point.
abbrev whole : Reals
whole = record {
  Double = ℤ;
  less = λ a b. false;
  same = λ a b. false;
  add = λ a b. a;
  sub = λ a b. a;
  mul = λ a b. a;
  div = λ a b. a;
  pow = λ a b. a;
  neg = λ a. a;
  fabs = λ a. a;
  ceil = λ a. a;
  floor = λ a. a;
  exp = λ a. a;
  log = λ a. a;
  cos = λ a. a;
  sin = λ a. a;
  tan = λ a. a;
  sqrt = λ a. a;
  of_long = λ z. z;
  to_long = λ z. some z;
  to_int = λ z. some z;
  half = pos 0;
  huge = pos 0;
}

rnd-range_example :
    ((q : ℕ) × (rnd whole 2147483647 1073741824 (pos 6) ≡ ok (pos q)) × (q < 6))
    × (rnd whole 2147483647 2147483647 (pos 6) ≡ ok (pos 6))
rnd-range_example =
    rnd-range whole 2147483647 1073741824 6 (omega arith) (omega arith) (omega arith) (omega arith)

abbrev none_loaded : Loaded ℕ
none_loaded = record { hlib = []; printed = []; freed = [] }
