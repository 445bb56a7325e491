-- ===== src/Strings/Replace/Faults.antt =====
-- Inputs on which `Replace` does not do what it is for.
use kaya_basic.Base.{
  ℕ, zero, suc, ◌+◌, ◌-◌, ◌*◌, ◌≤◌, ◌^◌, ◌≢◌, ◌≡◌, refl, ap, ◌∙◌, arith, none, some, [], ◌∷◌, ◌++◌,
  length, take, drop, drop_all, length-append, length-take, length-drop, length-ne-zero, append-nil,
  Bytes, codes, ok,
}
use mathlib.Core.List.{cons-ne-nil}
use kaya_basic.Cpp.Int.{pos, negsuc, pos-sub-pos, pos-add-pos}
use kaya_basic.Cpp.Floats.{Floats}
use kaya_basic.Cpp.Text.{find?, starts_with}
use kaya_basic.Cpp.Text.Find.{find?-le, find?-nil, find?-self}
use kaya_basic.Cpp.Word.{Fits}
use kaya_basic.Variant.{of_long_value}
use kaya_basic.Strings.Search.{in_str}
use kaya_basic.Strings.Search.Laws.{first_from, in_str-answer, one_based-find}
use kaya_basic.Strings.Slice.{len-pos}
use kaya_basic.Strings.Slice.Laws.{left-nil, mid-nil}
use kaya_basic.Strings.Replace.{splice, replace_from, replace}
use kaya_basic.Strings.Replace.Laws.{splice_lem, replace_from_ok}

find?-empty : (s : Bytes) → find? [] s ≡ some 0
unfolding find? starts_with
find?-empty [] = refl
find?-empty (c ∷ s) = refl

-- The text after a round at position `p`.
abbrev grown : ℕ → Bytes → Bytes → Bytes
grown p s new = take p s ++ new ++ drop (0 + p) s

length-grown :
    (p : ℕ) (s new : Bytes) → p ≤ length s → length (grown p s new) ≡ length s + length new
length-grown p s new le = omega (
  arith,
  length-append (take p s ++ new) (drop (0 + p) s),
  length-append (take p s) new,
  length-take p s,
  length-drop (0 + p) s,
)

module _ (fl : Floats) where
  -- With an empty `old`, `InStr` finds it at once wherever it starts inside the text.
  in_str-empty :
      (p : ℕ) (s : Bytes)
      → Fits s
      → s ≢ []
      → p + 1 ≤ 2 ^ 53
      → p ≤ length s
      → in_str fl (of_long_value fl (pos (p + 1))) [] s ≡ pos (p + 1)
  in_str-empty p s f ne h le =
      in_str-answer fl p [] s f ne h ∙ ground (arith, find?-empty (drop p s))

  endless_from :
      (fuel p : ℕ) (s new : Bytes)
      → s ≢ []
      → p ≤ length s
      → length s + fuel * length new + 1 ≤ 2 ^ 53
      → replace_from fl fuel s [] new (pos (p + 1)) ≡ none
  endless_from zero p s new ne le b = unfold replace_from in refl
  endless_from (suc fuel) p s new ne le b =
      replace_from_ok fl fuel s [] new p (grown p s new)
        (splice_lem s [] new p (omega arith) (omega arith))
      ∙ rw (pos-add-pos (p + 1) (length new), next)
          (rw
            (in_str-empty (p + length new) (grown p s new) (omega (arith, longer))
              (longer-ne-nil longer) (omega arith) (omega (arith, longer)))
            (endless_from fuel (p + length new) (grown p s new) new (longer-ne-nil longer)
              (omega (arith, longer)) (omega (arith, longer))))
    where
      next : p + 1 + length new ≡ p + length new + 1
      next = omega arith

      longer : length (grown p s new) ≡ length s + length new
      longer = length-grown p s new le

      longer-ne-nil : length (grown p s new) ≡ length s + length new → grown p s new ≢ []
      longer-ne-nil e g = length-ne-zero s ne (omega (arith, ap length g, e))

-- With an empty `old` the loop does not end on a text that is not empty, whatever the fuel (below
-- the point where a `double` no longer counts the positions).
pub replace-endless :
    (fl : Floats) (fuel : ℕ) (source new : Bytes)
    → source ≢ []
    → length source + fuel * length new + 1 ≤ 2 ^ 53
    → replace fl fuel source [] new ≡ none
unfolding replace
replace-endless fl fuel source new ne b =
    rw (in_str-empty fl 0 source (omega arith) ne (omega arith) (omega arith))
      (endless_from fl fuel 0 source new ne (omega arith) b)

-- A round on the empty text leaves the new text.
splice-nil : (old new : Bytes) (i : ℕ) → Fits old → splice [] old new (pos (i + 1)) ≡ ok (new ++ [])
unfolding splice
splice-nil old new i f =
    let e : length old + (i + 1) ≡ length old + i + 1 = omega arith in
    rw (
      pos-sub-pos (i + 1) 1 (omega arith),
      left-nil (i + 1 - 1),
      len-pos old f,
      pos-add-pos (length old) (i + 1),
      e,
      mid-nil [] (length old + i) (negsuc 0) (omega arith) (omega arith),
    )

module _ (fl : Floats) where
  in_str_in_empty :
      (old : Bytes) (i : ℕ)
      → Fits old
      → find? (codes "1") old ≡ some i
      → in_str fl (of_long_value fl (pos 1)) old [] ≡ pos (i + 1)
  unfolding in_str of_long_value
  in_str_in_empty old i f h = rw (fl.print_one, one_based-find old (codes "1") 0 f) (ground arith)

find?-head : (c : ℕ) (s : Bytes) → find? (c ∷ []) (c ∷ s) ≡ some 0
unfolding find? starts_with
find?-head c s = ground arith

first_from_past : (sub s : Bytes) (p : ℕ) → sub ≢ [] → length s ≤ p → first_from sub s p ≡ none
first_from_past sub s p ne le = rw (drop_all p s le, find?-nil sub ne) (ground arith)

-- A source that is empty is taken for "not given": if `old` holds a "1", `Replace` returns the new
-- text instead of the empty one.
pub replace-nil :
    (fl : Floats) (fuel i : ℕ) (old new : Bytes)
    → length old + length new + 1 ≤ 2 ^ 53
    → new ≢ []
    → find? (codes "1") old ≡ some i
    → replace fl (suc (suc fuel)) [] old new ≡ some (ok new)
unfolding replace
replace-nil fl fuel i old new b ne h = rw (in_str_in_empty fl old i (omega arith) h) (
    replace_from_ok fl (suc fuel) [] old new i (new ++ []) (splice-nil old new i (omega arith))
    ∙ rw
        (
          append-nil new,
          pos-add-pos (i + 1) (length new),
          order,
          in_str-answer fl (i + length new) old new (omega arith) ne (omega (arith, inside)),
          first_from_past old new (i + length new) (old-ne-nil inside) (omega arith),
        )
        stops)
  where
    order : i + 1 + length new ≡ i + length new + 1
    order = omega arith

    inside : i + 1 ≤ length old
    inside = find?-le (codes "1") old i h

    old-ne-nil : i + 1 ≤ length old → old ≢ []
    old-ne-nil le e = absurd (omega (arith, ap length e))

    stops : replace_from fl (suc fuel) new old new (pos 0) ≡ some (ok new)
    stops = unfold replace_from in refl

module _ (fl : Floats) (rest : Bytes) (fits : length rest + 2 ≤ 2 ^ 53) where
  abbrev digit : Bytes
  digit = b'1' ∷ rest

  in_str_self : in_str fl (of_long_value fl (pos 1)) digit digit ≡ pos 1
  in_str_self =
      in_str-answer fl 0 digit digit (omega arith) (cons-ne-nil _ rest) (omega arith)
      ∙ ground (arith, find?-self digit)

  digit_after_removal : in_str fl (of_long_value fl (pos 1)) digit [] ≡ pos 1
  digit_after_removal = in_str_in_empty fl digit 0 (omega arith) (find?-head b'1' rest)

  on_empty : (k : ℕ) → replace_from fl k [] digit [] (pos 1) ≡ none
  on_empty zero = unfold replace_from in refl
  on_empty (suc k) =
      replace_from_ok fl k [] digit [] 0 [] (splice-nil digit [] 0 (omega arith))
      ∙ rw (pos-add-pos 1 0, digit_after_removal) (on_empty k)

  on_digit : (k : ℕ) → replace_from fl k digit digit [] (pos 1) ≡ none
  on_digit zero = unfold replace_from in refl
  on_digit (suc k) =
      replace_from_ok fl k digit digit [] 0 [] removed
      ∙ rw (pos-add-pos 1 0, digit_after_removal) (on_empty k)
    where
      removed : splice digit digit [] (pos 1) ≡ ok []
      removed =
          splice_lem digit digit [] 0 (omega arith) (omega arith)
          ∙ ap ok (drop_all (length digit + 0) digit (omega arith))

-- If the text to be replaced begins with "1" and is the whole source, removing it never ends.
pub replace-endless_removal :
    (fl : Floats) (fuel : ℕ) (rest : Bytes)
    → length rest + 2 ≤ 2 ^ 53
    → replace fl fuel (b'1' ∷ rest) (b'1' ∷ rest) [] ≡ none
unfolding replace
replace-endless_removal fl fuel rest fits =
    rw (in_str_self fl rest fits) (on_digit fl rest fits fuel)
