-- ===== src/Strings/Replace/Laws.antt =====
-- `Replace` returns the reference result within fuel; on some inputs its loop has no end.
use kaya_basic.Base.{
  ℕ, zero, suc, ◌+◌, ◌-◌, ◌*◌, ◌≤◌, ◌<◌, ◌^◌, ◌≢◌, ◌⊎◌, inl, inr, ◌≡◌, refl, sym, ap, ◌∙◌, arith,
  none, some, Option, Option-cases, [], ◌∷◌, ◌++◌, length, take, drop, length-append, length-take,
  length-drop, take-add-append, drop-add-append, drop-append, length-ne-zero, append_assoc, Bytes,
  codes, ok,
}
use mathlib.Core.Option
use mathlib.Core.List.{cons-ne-nil}
use kaya_basic.Cpp.Int.{pos, ◌+ℤ◌, pos-sub-pos, pos-add-pos}
use kaya_basic.Cpp.Floats.{Floats}
use kaya_basic.Cpp.Text.{find?}
use kaya_basic.Cpp.Text.Find.{find?-le, find?-nil}
use kaya_basic.Cpp.Word.{Fits}
use kaya_basic.Variant.{of_long_value}
use kaya_basic.Strings.Search.{in_str}
use kaya_basic.Strings.Search.Laws.{answer, one_based-find, first_from, in_str-answer}
use kaya_basic.Strings.Slice.{len-pos}
use kaya_basic.Strings.Slice.Laws.{left-take, mid-drop}
use kaya_basic.Strings.Replace.{splice, replace_from, replace}
use kaya_basic.Strings.Replace.Reference.{replace_all, replace_all-none, replace_all-some}

-- One round at a match: what stands before it, the new text, what stands behind it.
pub splice_lem :
    (source old new : Bytes) (i : ℕ)
    → Fits source
    → i + length old ≤ length source
    → splice source old new (pos (i + 1))
      ≡ ok (take i source ++ new ++ drop (length old + i) source)
unfolding splice
splice_lem source old new i f h =
    let e : length old + (i + 1) ≡ length old + i + 1 = omega arith in
    let i' : i + 1 - 1 ≡ i = omega arith in
    rw (
      pos-sub-pos (i + 1) 1 (omega arith),
      i',
      left-take source i f (omega arith),
      len-pos old (omega arith),
      pos-add-pos (length old) (i + 1),
      e,
      mid-drop source (length old + i) f,
    )

-- With an empty source, `InStr` looks for the text "1" in the text to be replaced.
abbrev pub Clear : Bytes → Bytes → Type 0
Clear old source = (find? (codes "1") old ≡ none) ⊎ (source ≢ [])

abbrev shifted : Bytes → Bytes → Bytes → Option ℕ
shifted old done rest = Option.map (λ i. i + length done) (find? old rest)

first_from-append :
    (old done rest : Bytes) → first_from old (done ++ rest) (length done) ≡ shifted old done rest
first_from-append old done rest =
    rw (drop-append done rest) (ground (arith, length-append done rest))

answer-none : (o : Option ℕ) → o ≡ none → answer o ≡ 0
answer-none none h = refl
answer-none (some i) h = cc

module _ (fl : Floats) where
  pub replace_from_ok :
      (fuel : ℕ) (source old new : Bytes) (i : ℕ) (source' : Bytes)
      → splice source old new (pos (i + 1)) ≡ ok source'
      → replace_from fl (suc fuel) source old new (pos (i + 1))
        ≡ replace_from fl fuel source' old new
            (in_str fl (of_long_value fl (pos (i + 1) +ℤ pos (length new))) old source')
  unfolding replace_from
  replace_from_ok fuel source old new i source' e = ground arith

module _ (fl : Floats) (old new : Bytes) (ne : old ≢ []) (fits : Fits old) where
  in_str-nil : find? (codes "1") old ≡ none → in_str fl (of_long_value fl (pos 1)) old [] ≡ pos 0
  unfolding in_str of_long_value
  in_str-nil h = rw (fl.print_one, one_based-find old (codes "1") 0 fits) (ground arith)

  in_str-append_ne :
      (done rest : Bytes)
      → Fits (done ++ rest)
      → length done + 1 ≤ 2 ^ 53
      → done ++ rest ≢ []
      → in_str fl (of_long_value fl (pos (length done + 1))) old (done ++ rest)
        ≡ pos (answer (shifted old done rest))
  in_str-append_ne done rest f h nn =
      in_str-answer fl (length done) old (done ++ rest) f nn h
      ∙ ap (λ o. pos (answer o)) (first_from-append old done rest)

  in_str-append :
      (done rest : Bytes)
      → Fits (done ++ rest)
      → length done + 1 ≤ 2 ^ 53
      → Clear old (done ++ rest)
      → in_str fl (of_long_value fl (pos (length done + 1))) old (done ++ rest)
        ≡ pos (answer (shifted old done rest))
  in_str-append [] [] f h (inl no_one) = rw (in_str-nil no_one, find?-nil old ne)
  in_str-append [] [] f h (inr nn) = absurd (nn refl)
  in_str-append [] (c ∷ rest) f h _ = in_str-append_ne [] (c ∷ rest) f h (cons-ne-nil c rest)
  in_str-append (c ∷ done) rest f h _ =
      in_str-append_ne (c ∷ done) rest f h (cons-ne-nil c (done ++ rest))

  inside :
      (done rest : Bytes) (i : ℕ)
      → find? old rest ≡ some i
      → i + length done + length old ≤ length (done ++ rest)
  inside done rest i e = omega (arith, find?-le old rest i e, length-append done rest)

  spliced :
      (done rest : Bytes) (i : ℕ)
      → find? old rest ≡ some i
      → Fits (done ++ rest)
      → splice (done ++ rest) old new (pos (i + length done + 1))
        ≡ ok (done ++ take i rest ++ new ++ drop (i + length old) rest)
  spliced done rest i e f =
      let order : length old + (i + length done) ≡ i + length old + length done = omega arith in
      splice_lem (done ++ rest) old new (i + length done) f (inside done rest i e)
      ∙ rw (take-add-append i done rest, order, drop-add-append (i + length old) done rest)

  next_start :
      (done rest : Bytes) (i : ℕ)
      → find? old rest ≡ some i
      → pos (i + length done + 1) +ℤ pos (length new)
        ≡ pos (length (done ++ take i rest ++ new) + 1)
  next_start done rest i e =
      pos-add-pos (i + length done + 1) (length new)
      ∙ ap pos (
          omega (
            arith,
            length-append (done ++ take i rest) new,
            length-append done (take i rest),
            length-take i rest,
            find?-le old rest i e,
          ))

  -- Without a match in `rest` the loop stops; with one, it goes on behind the new text.
  round_none :
      (fuel : ℕ) (done rest : Bytes)
      → find? old rest ≡ none
      → replace_from fl (suc fuel) (done ++ rest) old new (pos (answer (shifted old done rest)))
        ≡ some (ok (done ++ replace_all old new rest 0))
  unfolding replace_from
  round_none fuel done rest e = rw (e, replace_all-none old new rest e)

  round_some :
      (fuel : ℕ) (done rest : Bytes) (i : ℕ)
      → find? old rest ≡ some i
      → Fits (done ++ rest)
      → let done' = done ++ take i rest ++ new in
        let source' = done' ++ drop (i + length old) rest in
        replace_from fl (suc fuel) (done ++ rest) old new (pos (answer (shifted old done rest)))
        ≡ replace_from fl fuel source' old new
            (in_str fl (of_long_value fl (pos (length done' + 1))) old source')
  unfolding replace_from
  round_some fuel done rest i e f = rw (e) (
      replace_from_ok fl fuel (done ++ rest) old new (i + length done) _ (spliced done rest i e f)
      ∙ rw (next_start done rest i e))

  spec_step :
      (done rest : Bytes) (i : ℕ)
      → find? old rest ≡ some i
      → done ++ (take i rest ++ new ++ replace_all old new (drop (i + length old) rest) 0)
        ≡ done ++ replace_all old new rest 0
  spec_step done rest i e = ap (λ t. done ++ t) (sym (replace_all-some old new rest i ne e))

  -- What a round leaves of the bound on the length of the result.
  shrinks :
      (done rest : Bytes) (i : ℕ)
      → find? old rest ≡ some i
      → (length (done ++ take i rest ++ new) ≡ length done + i + length new)
        × (length (drop (i + length old) rest) + i + length old ≡ length rest)
        × (0 < length old)
  shrinks done rest i e = (
    omega (
      arith,
      length-append (done ++ take i rest) new,
      length-append done (take i rest),
      length-take i rest,
      find?-le old rest i e,
    ),
    omega (arith, length-drop (i + length old) rest, find?-le old rest i e),
    omega (arith, length-ne-zero old ne),
  )

  budget :
      (d r r' i o n : ℕ)
      → d + r * (1 + n) + 1 ≤ 2 ^ 53
      → r' + i + o ≡ r
      → 0 < o
      → d + i + n + r' * (1 + n) + 1 ≤ 2 ^ 53
  budget d r r' i o n h e p =
      let at_least : n ≤ o * n = grind arith in
      omega (arith, ap (λ (t : ℕ). t * (1 + n)) e, at_least)

  to_clear :
      {source : Bytes}
      → (find? (codes "1") old ≡ none) ⊎ ((source ≢ []) × (new ≢ []))
      → Clear old source
  to_clear (inl no_one) = inl no_one
  to_clear (inr (nn, _)) = inr nn

  still_clear :
      {source : Bytes} (kept rest : Bytes)
      → (find? (codes "1") old ≡ none) ⊎ ((source ≢ []) × (new ≢ []))
      → (find? (codes "1") old ≡ none) ⊎ ((kept ++ new ++ rest ≢ []) × (new ≢ []))
  still_clear kept rest (inl no_one) = inl no_one
  still_clear kept rest (inr (_, nn)) = inr (
    λ e.
        length-ne-zero new nn
          (omega (arith, ap length e, length-append (kept ++ new) rest, length-append kept new)),
    nn,
  )

  regroup :
      (done rest : Bytes) (i : ℕ)
      → done ++ take i rest ++ new ++ replace_all old new (drop (i + length old) rest) 0
        ≡ done ++ (take i rest ++ new ++ replace_all old new (drop (i + length old) rest) 0)
  regroup done rest i = simp append_assoc

  replace_from-all :
      (fuel : ℕ) (done rest : Bytes)
      → length rest < fuel
      → length done + length rest * (1 + length new) + 1 ≤ 2 ^ 53
      → (find? (codes "1") old ≡ none) ⊎ ((done ++ rest ≢ []) × (new ≢ []))
      → replace_from fl fuel
          (done ++ rest)
          old
          new
          (in_str fl (of_long_value fl (pos (length done + 1))) old (done ++ rest))
        ≡ some (ok (done ++ replace_all old new rest 0))
  replace_from-all zero done rest lt b clear = absurd (omega arith)
  replace_from-all (suc fuel) done rest lt b clear =
      rw
        (in_str-append done rest (omega (arith, length-append done rest)) (omega arith)
          (to_clear clear))
        (elim (Option-cases (find? old rest)) [
          | inl e ↦ round_none fuel done rest e
          | inr (i, e) ↦
              let (l, l', p) = shrinks done rest i e in
              round_some fuel done rest i e (omega (arith, length-append done rest))
              ∙ replace_from-all fuel (done ++ take i rest ++ new) (drop (i + length old) rest)
                  (omega arith)
                  (rw l (budget (length done) (length rest) _ i (length old) (length new) b l' p))
                  (still_clear (done ++ take i rest) (drop (i + length old) rest) clear)
              ∙ ap (λ t. some (ok t)) (regroup done rest i ∙ spec_step done rest i e)
        ])

-- `Replace` ends and returns the text with every match replaced, from left to right, with one round
-- of fuel more than the source is long. It wants an `old` that is not empty, lengths that a
-- `double` holds, and either that `old` holds no "1" or that neither source nor `new` is empty.
pub replace-replace_all :
    (fl : Floats) (source old new : Bytes)
    → old ≢ []
    → Fits old
    → length source * (1 + length new) + 1 ≤ 2 ^ 53
    → (find? (codes "1") old ≡ none) ⊎ ((source ≢ []) × (new ≢ []))
    → replace fl (suc (length source)) source old new ≡ some (ok (replace_all old new source 0))
unfolding replace
replace-replace_all fl source old new ne fits b clear =
    replace_from-all fl old new ne fits (suc (length source)) [] source (omega arith) (omega arith)
      clear
