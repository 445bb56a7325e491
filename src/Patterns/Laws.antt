-- ===== src/Patterns/Laws.antt =====
-- `SearchAllEx` gives the matches, as long as there are some and its first array holds them.
use kaya_basic.Base.{
  ◌-◌, ◌≤◌, ◌<◌, ◌≢◌, ◌≡◌, refl, arith, true, ◌==◌, leb, leb→le, Bool-cases, inl, inr,
  if◌then◌else◌, List, [], ◌∷◌, length, replicate, drop, Bytes, ok, throws, out_of_range,
}
use kaya_basic.Array.{Array, no_dim, redim1, bounds, size, resize}
use kaya_basic.Array.Parts.{
  filled, parts_array, filled_start, redim1-preserve, put_all-filled, put_all-too_many,
}
use kaya_basic.Array.Fill.{put_all}
use kaya_basic.Cpp.Int.{pos, negsuc, ◌-ℤ◌, ◌+ℤ◌, pos-sub-pos}
use kaya_basic.Patterns.{Regexes, search_all_ex}

-- The array that has two empty texts.
abbrev pub two_empty : Array Bytes
two_empty = record {
  preserve = true;
  items = [] ∷ [] ∷ [];
  dim1 = record { lo = negsuc 0; hi = pos 0; d = pos 2 };
  dim2 = no_dim;
  dim3 = no_dim;
  dim4 = no_dim;
}

-- `redim(0, -1)` swaps the bounds and keeps two of the texts.
cut_to_none :
    redim1 [] (pos 0) (pos 0 -ℤ pos 1) (record (filled [] (replicate 1025 [])) { preserve = true })
    ≡ two_empty
unfolding redim1 bounds size resize ◌+ℤ◌ ◌-ℤ◌
cut_to_none = refl

length-zero : {A : Type 0} (xs : List A) → length xs ≡ 0 → xs ≡ []
length-zero [] h = refl
length-zero (x ∷ xs) h = absurd (omega arith)

module _ (rx : Regexes) (text pattern : Bytes) (re : rx.Regex)
    (compiled : rx.compile pattern ≡ ok re) where
  -- The matches from first to last.
  abbrev ms : List Bytes
  ms = rx.matches text re

  search_all_ex-some :
      length ms ≢ 0 → length ms ≤ 1025 → search_all_ex rx text pattern ≡ ok (parts_array ms)
  unfolding search_all_ex
  search_all_ex-some ne b =
      let last = pos-sub-pos (length ms) 1 (omega arith) in
      let cut =
        (redim1-preserve ms (drop (length ms) (replicate 1025 [])) (length ms - 1) (omega arith)
          (omega arith)).1 in
      rw (compiled, filled_start.1, put_all-filled ms b, last, cut) refl

  search_all_ex-none : ms ≡ [] → search_all_ex rx text pattern ≡ ok two_empty
  unfolding search_all_ex put_all
  search_all_ex-none e = rw (compiled, filled_start.1, e, cut_to_none) refl

  search_all_ex-many : 1025 < length ms → search_all_ex rx text pattern ≡ throws out_of_range
  unfolding search_all_ex
  search_all_ex-many b = rw (compiled, filled_start.1, put_all-too_many ms b) refl

  -- A pattern that is a regular expression with 1 to 1025 matches gives an array from 0 on that
  -- holds the matches in their order. Without a match the array has two empty texts and the bounds
  -- -1 and 0, and with more than 1025 matches the call throws.
  pub search_all_ex-matches : search_all_ex rx text pattern ≡ (
      if length ms == 0
      then ok two_empty
      else if leb (length ms) 1025
      then ok (parts_array ms)
      else throws out_of_range)
  search_all_ex-matches = elim (Bool-cases (length ms == 0)) [
    | inl none_left ↦ rw none_left (search_all_ex-none (length-zero ms (ground arith)))
    | inr some_left ↦ elim (Bool-cases (leb (length ms) 1025)) [
      | inl fits ↦ rw (some_left, fits) (search_all_ex-some (ground arith) (leb→le _ _ fits))
      | inr over ↦ rw (some_left, over) (search_all_ex-many (ground arith))
    ]
  ]
