-- ===== src/Strings/Split/Laws.antt =====
-- `Split` returns the parts between the separators.
use kaya_basic.Base.{
  suc, ◌-◌, ◌≤◌, ◌<◌, ◌^◌, ◌≢◌, ◌≡◌, arith, some, Option-cases, inl, inr, [], length,
  length-ne-zero, Bytes, out_of_range, throws, ok,
}
use kaya_basic.Array.Parts.{parts_array}
use kaya_basic.Cpp.Floats.{Floats}
use kaya_basic.Cpp.Int.{pos}
use kaya_basic.Cpp.Text.{find?}
use kaya_basic.Cpp.Text.Find.{find?-le}
use kaya_basic.Strings.Search.Laws.{answer, in_str-answer_two}
use kaya_basic.Strings.Slice.{len, len-pos}
use kaya_basic.Strings.Split.{search_sep, split}
use kaya_basic.Strings.Split.Reference.{parts, parts-none, parts-some}
use kaya_basic.Strings.Split.Steps.{int_of_pos}
use kaya_basic.Strings.Split.Rounds.{split_from-start, split_from-too_many}

module _ (fl : Floats) (sep : Bytes) (ne : sep ≢ []) where
  answer_small : (item : Bytes) → length item < 2 ^ 31 - 1 → answer (find? sep item) < 2 ^ 31
  answer_small item h = elim (Option-cases (find? sep item)) [
    | inl e ↦ rw e (omega arith)
    | inr (i, e) ↦ rw e (omega (arith, find?-le sep item i e))
  ]

  search_sep-answer :
      (item : Bytes)
      → length item < 2 ^ 31 - 1
      → search_sep fl sep item ≡ pos (answer (find? sep item))
  unfolding search_sep
  search_sep-answer item h =
      rw (in_str-answer_two fl sep item (omega arith))
        (int_of_pos (answer (find? sep item)) (answer_small item h))

-- `Split` ends and returns an array from 0 on, of the parts of the text between the separators, if
-- the separator is not empty, the text is shorter than an `int` counts, and there are no more parts
-- than the 1025 that the array holds while it is filled.
pub split-parts :
    (fl : Floats) (src sep : Bytes)
    → sep ≢ []
    → length src < 2 ^ 31 - 1
    → length (parts sep src 0) ≤ 1025
    → split fl (suc (length src)) src sep ≡ some (ok (parts_array (parts sep src 0)))
unfolding split
split-parts fl src sep ne h r =
    split_from-start (search_sep fl sep) (len sep) (length sep) (find? sep) (λ s. parts sep s 0)
      (omega (arith, length-ne-zero sep ne)) (search_sep-answer fl sep ne) (find?-le sep)
      (λ item i small e. len-pos sep (omega (arith, find?-le sep item i e))) (parts-none sep)
      (λ item i e. parts-some sep item i ne e) src h r

-- `Split` ends and throws if the separator is not empty, the text is shorter than an `int` counts,
-- and there are more parts than the 1025 that the array holds.
pub split-too_many :
    (fl : Floats) (src sep : Bytes)
    → sep ≢ []
    → length src < 2 ^ 31 - 1
    → 1025 < length (parts sep src 0)
    → split fl (suc (length src)) src sep ≡ some (throws out_of_range)
unfolding split
split-too_many fl src sep ne h r =
    split_from-too_many (search_sep fl sep) (len sep) (length sep) (find? sep) (λ s. parts sep s 0)
      (omega (arith, length-ne-zero sep ne)) (search_sep-answer fl sep ne) (find?-le sep)
      (λ item i small e. len-pos sep (omega (arith, find?-le sep item i e))) (parts-none sep)
      (λ item i e. parts-some sep item i ne e) src h r
