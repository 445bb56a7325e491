-- ===== src/Strings/Search/Laws.antt =====
-- What the searches return.
use kaya_basic.Base.{
  ℕ, suc, ◌+◌, ◌-◌, ◌≤◌, ◌<◌, ◌^◌, ◌≢◌, ◌≡◌, ◌⊎◌, refl, subst, [], ap, arith, none, some, Option,
  Option-cases, inl, inr, true, length, drop, leb, if◌then◌else◌, length-drop, length-ne-zero,
  drop-drop, Bytes,
}
use mathlib.Core.Option
use kaya_basic.Cpp.Int.{pos, pos-sub-pos}
use kaya_basic.Cpp.Floats.{Floats}
use kaya_basic.Cpp.Text.{find, find?, starts_with, position}
use kaya_basic.Cpp.Text.Find.{
  OccursAt, find?-le, find?-first, find?-none, find?-starts_with, starts_with-OccursAt,
  OccursAt-starts_with,
}
use kaya_basic.Cpp.Word.{Fits, max_size, to_size, to_long, to_long-npos-add-one, to_long-add-one}
use kaya_basic.Variant.{of_long_value, of_string}
use kaya_basic.Strings.Search.{one_based, in_str}

-- The one-based answer for the first match at position `p` or behind it.
abbrev pub answer : Option ℕ → ℕ
answer none = 0
answer (some i) = i + 1

abbrev pub first_from : Bytes → Bytes → ℕ → Option ℕ
first_from sub s p =
    if leb p (length s) then Option.map (λ i. i + p) (find? sub (drop p s)) else none

pub one_based-position :
    (o : Option ℕ) → answer o ≤ max_size → one_based (to_long (position o)) ≡ pos (answer o)
unfolding one_based
one_based-position none h = to_long-npos-add-one
one_based-position (some i) h = to_long-add-one i (omega arith)

find-first_from : (s sub : Bytes) (p : ℕ) → find s sub p ≡ position (first_from sub s p)
unfolding find
find-first_from s sub p = ground arith

pub first_from-le :
    (s sub : Bytes) (p i : ℕ) → first_from sub s p ≡ some i → i + length sub ≤ length s
first_from-le s sub p i h = elim (Option-cases (find? sub (drop p s))) [
  | inl e ↦ ground arith
  | inr (j, e) ↦ ground (arith, find?-le sub (drop p s) j e, length-drop p s)
]

answer-le : (o : Option ℕ) (n : ℕ) → ((i : ℕ) → o ≡ some i → i ≤ n) → answer o ≤ n + 1
answer-le none n h = omega arith
answer-le (some i) n h = omega (arith, h i refl)

pub one_based-find :
    (s sub : Bytes) (p : ℕ)
    → Fits s
    → one_based (to_long (find s sub p)) ≡ pos (answer (first_from sub s p))
one_based-find s sub p f =
    let bound : answer (first_from sub s p) ≤ length s + 1 =
      answer-le (first_from sub s p) (length s) (λ i e. omega (arith, first_from-le s sub p i e)) in
    rw (find-first_from s sub p) (one_based-position (first_from sub s p) (omega arith))

answer-first_from_zero : (sub s : Bytes) → answer (first_from sub s 0) ≡ answer (find? sub s)
answer-first_from_zero sub s = elim (Option-cases (find? sub s)) [
  | inl e ↦ ground arith
  | inr (i, e) ↦ ground arith
]

first_from-starts_with :
    (sub s : Bytes) (p i : ℕ)
    → first_from sub s p ≡ some i
    → (starts_with sub (drop i s) ≡ true) × (p ≤ i)
first_from-starts_with sub s p i h = elim (Option-cases (find? sub (drop p s))) [
  | inl e ↦ ground arith
  | inr (j, e) ↦
      let at_j = rw (drop-drop j p s) at (find?-starts_with sub (drop p s) j e) in
      let same : p + j ≡ i = ground arith in
      (subst (λ k. starts_with sub (drop k s) ≡ true) same at_j, omega arith)
]

answer-OccursAt :
    (sub s : Bytes) (p r : ℕ)
    → answer (first_from sub s p) ≡ suc r
    → OccursAt sub s r × (p ≤ r) × (r + length sub ≤ length s)
answer-OccursAt sub s p r h = elim (Option-cases (first_from sub s p)) [
  | inl e ↦ absurd (omega (arith, ap answer e))
  | inr (i, e) ↦
      let same : i ≡ r = omega (arith, ap answer e) in
      let (found, after) = first_from-starts_with sub s p i e in
      subst (λ k. OccursAt sub s k × (p ≤ k) × (k + length sub ≤ length s)) same
        (starts_with-OccursAt sub (drop i s) found, after, first_from-le s sub p i e)
]

answer-first :
    (sub s : Bytes) (p r j : ℕ)
    → answer (first_from sub s p) ≡ r
    → p ≤ j
    → j ≤ length s
    → (r ≡ 0) ⊎ (j + 1 < r)
    → ¬ OccursAt sub s j
answer-first sub s p r j h le lt before = λ occurs.
    let here = OccursAt-starts_with sub (drop j s) occurs in
    let split : p + (j - p) ≡ j = omega arith in
    let there : starts_with sub (drop (j - p) (drop p s)) ≡ true =
      rw (drop-drop (j - p) p s, split) here in
    elim (Option-cases (find? sub (drop p s))) [
      | inl e ↦ cc (there, find?-none sub (drop p s) (j - p) e (omega (arith, length-drop p s)))
      | inr (i, e) ↦
          let found : answer (first_from sub s p) ≡ i + p + 1 = ground arith in
          cc (there, find?-first sub (drop p s) i (j - p) e (omega arith))
    ]

module _ (fl : Floats) where
  -- `InStr(start, sub, s)` on a text that is not empty.
  pub in_str-answer :
      (start : ℕ) (sub s : Bytes)
      → Fits s
      → s ≢ []
      → start + 1 ≤ 2 ^ 53
      → in_str fl (of_long_value fl (pos (start + 1))) sub s ≡ pos (answer (first_from sub s start))
  unfolding in_str of_long_value
  in_str-answer start sub s f ne h =
      rw (fl.to_long-of_long (start + 1) h, pos-sub-pos (start + 1) 1 (omega arith), minus_one)
        (ground (arith, one_based-find s sub start f, length-ne-zero s ne))
    where
      minus_one : to_size (pos (start + 1 - 1)) ≡ start
      minus_one = omega arith

  -- `InStr(sub, s)`, with the last argument left out.
  pub in_str-answer_two :
      (sub s : Bytes) → Fits s → in_str fl (of_string fl sub) s [] ≡ pos (answer (find? sub s))
  unfolding in_str of_string
  in_str-answer_two sub s f = rw (one_based-find s sub 0 f, answer-first_from_zero sub s) refl

  -- On a text that is not empty, a positive answer of `InStr(start + 1, sub, s)` is the position of
  -- an occurrence, at offset `start` or behind it, inside the text.
  pub in_str-OccursAt :
      (start : ℕ) (sub s : Bytes) (r : ℕ)
      → Fits s
      → s ≢ []
      → start + 1 ≤ 2 ^ 53
      → in_str fl (of_long_value fl (pos (start + 1))) sub s ≡ pos (suc r)
      → OccursAt sub s r × (start ≤ r) × (r + length sub ≤ length s)
  in_str-OccursAt start sub s r f ne h e =
      answer-OccursAt sub s start r (cc (in_str-answer start sub s f ne h))

  -- If `InStr(start + 1, sub, s)` answers on a text that is not empty, no occurrence stands at
  -- offset `start` or behind it and before the answer; none at all there if the answer is 0.
  pub in_str-first :
      (start : ℕ) (sub s : Bytes) (r j : ℕ)
      → Fits s
      → s ≢ []
      → start + 1 ≤ 2 ^ 53
      → in_str fl (of_long_value fl (pos (start + 1))) sub s ≡ pos r
      → start ≤ j
      → j ≤ length s
      → (r ≡ 0) ⊎ (j + 1 < r)
      → ¬ OccursAt sub s j
  in_str-first start sub s r j f ne h e le lt before =
      answer-first sub s start r j (cc (in_str-answer start sub s f ne h)) le lt before
