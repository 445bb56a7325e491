-- ===== src/Strings/Split/Any.antt =====
-- `SplitAny` parts a text at every byte that is one of the separators.
use kaya_basic.Base.{
  ℕ, zero, suc, ◌+◌, ◌-◌, ◌≤◌, ◌<◌, ◌^◌, ◌≡◌, refl, arith, Option, none, some, Option-cases, inl,
  inr, List, [], ◌∷◌, if◌then◌else◌, length, take, drop, Bytes, ok,
}
use kaya_basic.Array.Parts.{parts_array}
use kaya_basic.Cpp.Floats.{Floats}
use kaya_basic.Cpp.Int.{pos}
use kaya_basic.Cpp.Text.{mem_byte, find_index?, find_first_of, position}
use kaya_basic.Strings.Search.{in_str_any}
use kaya_basic.Strings.Search.Laws.{answer, one_based-position}
use kaya_basic.Strings.Split.{search_any, split_any}
use kaya_basic.Strings.Split.Reference.{cons_head}
use kaya_basic.Strings.Split.Steps.{int_of_pos}
use kaya_basic.Strings.Split.Rounds.{split_from-start}
use kaya_basic.Variant.{of_string}

module _ (set : Bytes) where
  -- The texts between the bytes that are in `set`, for each such byte one more.
  unfoldable pub fields : Bytes → List Bytes
  fields [] = [] ∷ []
  fields (c ∷ s) = let rest = fields s in if mem_byte c set then [] ∷ rest else cons_head c rest

  first : Bytes → Option ℕ
  first s = find_index? (λ c. mem_byte c set) s

  first-le : (s : Bytes) (i : ℕ) → first s ≡ some i → i + 1 ≤ length s
  unfolding first find_index?
  first-le [] i h = ground arith
  first-le (c ∷ s) zero h = omega arith
  first-le (c ∷ s) (suc i) h = ground (arith, first-le s i)

  fields-none : (s : Bytes) → first s ≡ none → fields s ≡ s ∷ []
  unfolding fields first find_index?
  fields-none [] h = refl
  fields-none (c ∷ s) h = ground (arith, fields-none s)

  fields-some :
      (s : Bytes) (i : ℕ) → first s ≡ some i → fields s ≡ take i s ∷ fields (drop (i + 1) s)
  unfolding fields first find_index?
  fields-some [] i h = ground arith
  fields-some (c ∷ s) zero h = ground arith
  fields-some (c ∷ s) (suc i) h =
      let e : suc i + 1 ≡ suc (i + 1) = omega arith in rw e (ground (arith, fields-some s i))

  answer_small : (s : Bytes) → length s < 2 ^ 31 - 1 → answer (first s) < 2 ^ 31
  answer_small s h = elim (Option-cases (first s)) [
    | inl e ↦ rw e (omega arith)
    | inr (i, e) ↦ rw e (omega (arith, first-le s i e))
  ]

  find_first_of-first : (s : Bytes) → find_first_of s set 0 ≡ position (first s)
  unfolding find_first_of first
  find_first_of-first s = elim (Option-cases (first s)) [
    | inl e ↦ ground (arith, e)
    | inr (i, e) ↦ ground (arith, e)
  ]

  search_any-answer :
      (fl : Floats) (s : Bytes)
      → length s < 2 ^ 31 - 1
      → search_any fl set s ≡ pos (answer (first s))
  unfolding search_any in_str_any of_string
  search_any-answer fl s h =
      rw (find_first_of-first s, one_based-position (first s) (omega (arith, answer_small s h)))
        (int_of_pos (answer (first s)) (answer_small s h))

-- `SplitAny` ends and returns an array from 0 on, of the texts between the bytes of the text that
-- are in `sep`, if the text is shorter than an `int` counts, and there are no more of them than the
-- 1025 that the array holds while it is filled.
pub split_any-fields :
    (fl : Floats) (src sep : Bytes)
    → length src < 2 ^ 31 - 1
    → length (fields sep src) ≤ 1025
    → split_any fl (suc (length src)) src sep ≡ some (ok (parts_array (fields sep src)))
unfolding split_any
split_any-fields fl src sep h r =
    split_from-start (search_any fl sep) (pos 1) 1 (first sep) (fields sep) (omega arith)
      (search_any-answer sep fl) (first-le sep) (λ item i small e. refl) (fields-none sep)
      (fields-some sep) src h r
