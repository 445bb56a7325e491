-- ===== src/Examples/Strings.antt =====
-- The string functions at concrete inputs.
use kaya_basic.Array.Parts.{parts_array}
use kaya_basic.Base.{
  ℕ, ◌⊎◌, ◌-◌, ◌≤◌, ◌<◌, ◌+◌, ◌-◌, ◌≤◌, ◌≢◌, ◌≡◌, refl, arith, inl, inr, [], ◌∷◌, ◌++◌, some, none,
  length, suc, zero, ap, replicate, length-replicate, Bytes, codes, ok, throws, out_of_range, ◌>>=◌,
}
use mathlib.Core.List.{cons-ne-nil}
use kaya_basic.Cpp.Int.{ℤ, pos, negsuc}
use kaya_basic.Cpp.Floats.{Floats}
use kaya_basic.Cpp.Text.{mem_byte, find?, starts_with}
use kaya_basic.Variant.{of_long_value}
use kaya_basic.Array.{Array}
use kaya_basic.Strings.Slice.{insert, delete}
use kaya_basic.Strings.Slice.Laws.{delete-insert, insert-throws}
use kaya_basic.Strings.Search.{in_str, in_str_rev}
use kaya_basic.Strings.Search.Backwards.{in_str_rev-last}
use kaya_basic.Cpp.Text.Find.{OccursAt}
use kaya_basic.Strings.Search.Laws.{in_str-answer}
use kaya_basic.Strings.Replace.{replace}
use kaya_basic.Strings.Replace.Reference.{replace_all}
use kaya_basic.Strings.Replace.Laws.{replace-replace_all}
use kaya_basic.Strings.Replace.Faults.{replace-endless}
use kaya_basic.Strings.Split.{split_any, split, join}
use kaya_basic.Strings.Split.Reference.{parts}
use kaya_basic.Strings.Split.Any.{fields, split_any-fields}
use kaya_basic.Strings.Split.Laws.{split-parts, split-too_many}
use kaya_basic.Strings.Split.Joined.{join-split}
use kaya_basic.Strings.Trim.{trim}
use kaya_basic.Strings.Trim.Laws.{AllBlank, StartsClean, EndsClean, trim-decomposes}

-- Whole numbers in place of floating point; only one digit is printed or read.
abbrev digit_of : ℤ → Bytes
digit_of (pos n) = (n + 48) ∷ []
digit_of (negsuc n) = 45 ∷ (n + 49) ∷ []

abbrev value_of : Bytes → ℤ
value_of [] = pos 0
value_of (c ∷ s) = pos (c - 48)

abbrev pub whole : Floats
whole = record {
  Double = ℤ;
  of_long = λ z. z;
  to_long = λ z. z;
  print = digit_of;
  parse = value_of;
  to_long-of_long = λ n h. refl;
  print_one = refl;
}

abbrev banana : Bytes
banana = codes "banana"

abbrev an : Bytes
an = codes "an"

abbrev an-ne-nil : an ≢ []
an-ne-nil = cons-ne-nil _ _

abbrev comma : Bytes
comma = codes ","

abbrev list_text : Bytes
list_text = codes "a,,bc"

replaced : replace_all an (codes "xyz") banana 0 ≡ codes "bxyzxyza"
unfolding replace_all starts_with
replaced = refl

replace-replace_all_example :
    replace whole 7 banana an (codes "xyz") ≡ some (ok (replace_all an (codes "xyz") banana 0))
replace-replace_all_example =
    replace-replace_all whole banana an (codes "xyz") an-ne-nil (omega arith) (omega arith)
      (inl (unfold find? starts_with in refl))

replace-endless_example : replace whole 1000 banana [] an ≡ none
replace-endless_example = replace-endless whole 1000 banana an (cons-ne-nil _ _) (omega arith)

comma-ne-nil : comma ≢ []
comma-ne-nil = cons-ne-nil _ _

list_parts : parts comma list_text 0 ≡ codes "a" ∷ [] ∷ codes "bc" ∷ []
unfolding parts starts_with
list_parts = refl

list_short : length (parts comma list_text 0) ≤ 1025
list_short = rw list_parts (omega arith)

split-parts_example :
    split whole 6 list_text comma ≡ some (ok (parts_array (parts comma list_text 0)))
split-parts_example = split-parts whole list_text comma comma-ne-nil (omega arith) list_short

-- `n` commas.
abbrev commas : ℕ → Bytes
commas n = replicate n 44

commas-parts : (n : ℕ) → length (parts comma (commas n) 0) ≡ suc n
unfolding parts starts_with
commas-parts zero = refl
commas-parts (suc n) = ap suc (commas-parts n)

split-too_many_example :
    split whole (suc (length (commas 1025))) (commas 1025) comma ≡ some (throws out_of_range)
split-too_many_example =
    split-too_many whole (commas 1025) comma comma-ne-nil
      (omega (arith, length-replicate {A = ℕ} 1025 44)) (omega (arith, commas-parts 1025))

in_str_rev-last_example :
    (r : ℕ) × (in_str_rev an banana (pos 4) ≡ pos r)
    × ((r ≡ 0) ⊎ (OccursAt an banana (r - 1) × (r - 1 ≤ 3)))
    × ((¬ OccursAt an banana 1) ⊎ (1 < r))
in_str_rev-last_example =
    in_str_rev-last an banana (pos 4) 1 (omega arith) (omega arith) (omega arith) (omega arith)

-- The separators are the comma and the letter n.
abbrev mixed : Bytes
mixed = codes ",n"

split_any-fields_example :
    split_any whole 6 list_text mixed ≡ some (ok (parts_array (fields mixed list_text)))
split_any-fields_example =
    split_any-fields whole list_text mixed (omega arith) (unfold fields mem_byte in omega arith)

join-split_example :
    (a : Array Bytes) × (split whole 6 list_text comma ≡ some (ok a))
    × (join a comma ≡ ok list_text)
join-split_example = join-split whole list_text comma comma-ne-nil (omega arith) list_short

found : in_str whole (of_long_value whole (pos 3)) an banana ≡ pos 4
unfolding find? starts_with
found = in_str-answer whole 2 an banana (omega arith) (cons-ne-nil _ _) (omega arith)

trim-decomposes_example :
    (a b : Bytes) × (codes " a b " ≡ a ++ trim (codes " a b ") ++ b)
    × AllBlank a
    × AllBlank b
    × StartsClean (trim (codes " a b "))
    × EndsClean (trim (codes " a b "))
trim-decomposes_example = trim-decomposes (codes " a b ") (ground arith)

delete-insert_test : (insert banana an (pos 3) >>= λ r. delete r (pos 3) (pos 2)) ≡ ok banana
delete-insert_test = delete-insert banana an 2 (omega arith) (omega arith)

insert-throws_test : insert banana an (pos 8) ≡ throws out_of_range
insert-throws_test = insert-throws banana an 8 (omega arith) (omega arith) (inr (omega arith))
