-- ===== src/Strings/Split/Rounds.antt =====
-- The loop of `Split` and `SplitAny`, for a way to find a separator.
use kaya_basic.Base.{
  ℕ, zero, suc, ◌+◌, ◌-◌, ◌≤◌, ◌<◌, ◌^◌, ◌≢◌, ◌≡◌, refl, sym, ap, ◌∙◌, arith, Option, none, some,
  Option-cases, inl, inr, List, [], ◌∷◌, ◌++◌, length, take, drop, replicate, length-append,
  length-drop, append_assoc, Bytes, out_of_range, throws, length-replicate, ok,
}
use kaya_basic.Array.{array1}
use kaya_basic.Array.Parts.{filled, parts_array, filled_start, put-filled, put-filled_full}
use kaya_basic.Cpp.Int.{ℤ, pos, negsuc, ◌+ℤ◌, pos-add-pos}
use kaya_basic.Strings.Search.Laws.{answer}
use kaya_basic.Strings.Slice.Laws.{mid-rest}
use kaya_basic.Strings.Split.{cut, finish, split_from}
use kaya_basic.Strings.Split.Steps.{
  finish-filled, part, split_from_stop, split_from_go, split_from_throw,
}

-- `found` is the separator that is found first, which has `k` bytes, and `ps` the parts between the
-- separators.
module _ (search : Bytes → ℤ) (skip : ℤ) (k : ℕ) (found : Bytes → Option ℕ)
    (ps : Bytes → List Bytes) (some_skip : 0 < k)
    (search_found : (item : Bytes)
      → length item < 2 ^ 31 - 1
      → search item ≡ pos (answer (found item)))
    (found_le : (item : Bytes) (i : ℕ) → found item ≡ some i → i + k ≤ length item)
    (skipped : (item : Bytes) (i : ℕ) → length item < 2 ^ 31 → found item ≡ some i → skip ≡ pos k)
    (ps_none : (item : Bytes) → found item ≡ none → ps item ≡ item ∷ [])
    (ps_some : (item : Bytes) (i : ℕ)
      → found item ≡ some i
      → ps item ≡ take i item ∷ ps (drop (i + k) item)) where
  ps-ne-nil : (item : Bytes) → length (ps item) ≢ 0
  ps-ne-nil item = elim (Option-cases (found item)) [
    | inl e ↦ rw (ps_none item e) (omega arith)
    | inr (i, e) ↦ rw (ps_some item i e) (omega arith)
  ]

  cut-filled :
      (done : List Bytes) (y : Bytes) (room : List Bytes) (item : Bytes) (i : ℕ)
      → found item ≡ some i
      → length item < 2 ^ 31
      → length done < 2 ^ 63
      → cut (filled done (y ∷ room)) item (pos (i + 1)) (pos (length done)) skip
        ≡ ok (filled (done ++ take i item ∷ []) room, drop (i + k) item)
  unfolding cut
  cut-filled done y room item i e h small =
      let inside = found_le item i e in
      let behind : i + 1 + k ≡ i + k + 1 = omega arith in
      rw (
        part item i (omega arith) h,
        put-filled done y (take i item) room small,
        skipped item i h e,
        pos-add-pos (i + 1) k,
        behind,
        mid-rest item (i + k) (omega arith),
      )

  step_none :
      (fuel : ℕ) (item : Bytes) (idx : ℤ) (done : List Bytes) (y : Bytes) (room : List Bytes)
      → found item ≡ none
      → length item < 2 ^ 31 - 1
      → length done < 2 ^ 31
      → idx +ℤ pos 1 ≡ pos (length done)
      → split_from search skip (suc fuel) item idx (filled done (y ∷ room))
        ≡ some (ok (parts_array (done ++ item ∷ [])))
  step_none fuel item idx done y room e h small at =
      split_from_stop search skip fuel item idx (filled done (y ∷ room))
        (search_found item h ∙ ap (λ o. pos (answer o)) e)
      ∙ rw (at, finish-filled done y item room small)

  step_some :
      (fuel : ℕ) (item : Bytes) (idx : ℤ) (done : List Bytes) (y : Bytes) (room : List Bytes)
      (i : ℕ)
      → found item ≡ some i
      → length item < 2 ^ 31 - 1
      → length done < 2 ^ 31
      → idx +ℤ pos 1 ≡ pos (length done)
      → split_from search skip (suc fuel) item idx (filled done (y ∷ room))
        ≡ split_from search skip fuel
            (drop (i + k) item)
            (pos (length done))
            (filled (done ++ take i item ∷ []) room)
  step_some fuel item idx done y room i e h small at =
      split_from_go search skip fuel item idx (filled done (y ∷ room)) i
        (filled (done ++ take i item ∷ []) room) (drop (i + k) item)
        (search_found item h ∙ ap (λ o. pos (answer o)) e)
        (rw at (cut-filled done y room item i e (omega arith) (omega arith)))
      ∙ rw at

  room_for :
      (item : Bytes) (room : List Bytes) (i : ℕ)
      → found item ≡ some i
      → length (ps item) ≤ suc (length room)
      → length (ps (drop (i + k) item)) ≤ length room
  room_for item room i e h = omega (arith, ap length (ps_some item i e))

  pub split_from-ps :
      (fuel : ℕ) (item : Bytes) (idx : ℤ) (done room : List Bytes)
      → length item < fuel
      → length item < 2 ^ 31 - 1
      → length done + length room < 2 ^ 31
      → idx +ℤ pos 1 ≡ pos (length done)
      → length (ps item) ≤ length room
      → split_from search skip fuel item idx (filled done room)
        ≡ some (ok (parts_array (done ++ ps item)))
  split_from-ps zero item idx done room lt _ _ _ _ = absurd (omega arith)
  split_from-ps (suc fuel) item idx done [] lt h small at r = absurd (ps-ne-nil item (omega arith))
  split_from-ps (suc fuel) item idx done (y ∷ room) lt h small at r =
      elim (Option-cases (found item)) [
        | inl e ↦
            step_none fuel item idx done y room e h (omega arith) at
            ∙ ap (λ qs. some (ok (parts_array (done ++ qs)))) (sym (ps_none item e))
        | inr (i, e) ↦
            let shorter = length-drop (i + k) item in
            let inside = found_le item i e in
            step_some fuel item idx done y room i e h (omega arith) at
            ∙ split_from-ps fuel (drop (i + k) item) (pos (length done)) (done ++ take i item ∷ [])
                room (omega arith) (omega arith)
                (omega (arith, length-append done (take i item ∷ [])))
                (pos-add-pos (length done) 1
                  ∙ ap pos (omega (arith, length-append done (take i item ∷ []))))
                (room_for item room i e r)
            ∙ ap (λ qs. some (ok (parts_array qs)))
                (append_assoc done (take i item ∷ []) _
                  ∙ ap (λ qs. done ++ qs) (sym (ps_some item i e)))
      ]

  -- The same from the array that `Split` and `SplitAny` begin with.
  pub split_from-start :
      (src : Bytes)
      → length src < 2 ^ 31 - 1
      → length (ps src) ≤ 1025
      → split_from search skip (suc (length src)) src (negsuc 0) (array1 [] (pos 1024) (pos 0))
        ≡ some (ok (parts_array (ps src)))
  split_from-start src h r = rw filled_start.0 (
      split_from-ps (suc (length src)) src (negsuc 0) [] (replicate 1025 []) (omega arith) h
        (omega arith) minus_one r)
    where
      minus_one : negsuc 0 +ℤ pos 1 ≡ pos 0
      minus_one = unfold ◌+ℤ◌ in refl

  -- Where the parts are more than the array holds, a write throws.
  full_none :
      (fuel : ℕ) (item : Bytes) (idx : ℤ) (done : List Bytes)
      → found item ≡ none
      → length item < 2 ^ 31 - 1
      → length done < 2 ^ 31
      → idx +ℤ pos 1 ≡ pos (length done)
      → split_from search skip (suc fuel) item idx (filled done []) ≡ some (throws out_of_range)
  full_none fuel item idx done e h small at =
      split_from_stop search skip fuel item idx (filled done [])
        (search_found item h ∙ ap (λ o. pos (answer o)) e)
      ∙ rw at (unfold finish in rw (put-filled_full done item (omega arith)) refl)

  full_some :
      (fuel : ℕ) (item : Bytes) (idx : ℤ) (done : List Bytes) (i : ℕ)
      → found item ≡ some i
      → length item < 2 ^ 31 - 1
      → length done < 2 ^ 31
      → idx +ℤ pos 1 ≡ pos (length done)
      → split_from search skip (suc fuel) item idx (filled done []) ≡ some (throws out_of_range)
  full_some fuel item idx done i e h small at =
      let inside = found_le item i e in
      split_from_throw search skip fuel item idx (filled done []) i out_of_range
        (search_found item h ∙ ap (λ o. pos (answer o)) e)
        (rw at (
          unfold cut in
          rw
            (
              part item i (omega arith) (omega arith),
              put-filled_full done (take i item) (omega arith),
            )
            refl))

  split_from-full :
      (fuel : ℕ) (item : Bytes) (idx : ℤ) (done room : List Bytes)
      → length item < fuel
      → length item < 2 ^ 31 - 1
      → length done + length room < 2 ^ 31
      → idx +ℤ pos 1 ≡ pos (length done)
      → length room < length (ps item)
      → split_from search skip fuel item idx (filled done room) ≡ some (throws out_of_range)
  split_from-full zero item idx done room lt _ _ _ _ = absurd (omega arith)
  split_from-full (suc fuel) item idx done [] lt h small at r = elim (Option-cases (found item)) [
    | inl e ↦ full_none fuel item idx done e h (omega arith) at
    | inr (i, e) ↦ full_some fuel item idx done i e h (omega arith) at
  ]
  split_from-full (suc fuel) item idx done (y ∷ room) lt h small at r =
      elim (Option-cases (found item)) [
        | inl e ↦ absurd (omega (arith, ap length (ps_none item e)))
        | inr (i, e) ↦
            let shorter = length-drop (i + k) item in
            let inside = found_le item i e in
            step_some fuel item idx done y room i e h (omega arith) at
            ∙ split_from-full fuel (drop (i + k) item) (pos (length done))
                (done ++ take i item ∷ []) room (omega arith) (omega arith)
                (omega (arith, length-append done (take i item ∷ [])))
                (pos-add-pos (length done) 1
                  ∙ ap pos (omega (arith, length-append done (take i item ∷ []))))
                (omega (arith, ap length (ps_some item i e)))
      ]

  pub split_from-too_many :
      (src : Bytes)
      → length src < 2 ^ 31 - 1
      → 1025 < length (ps src)
      → split_from search skip (suc (length src)) src (negsuc 0) (array1 [] (pos 1024) (pos 0))
        ≡ some (throws out_of_range)
  split_from-too_many src h r =
      let size = length-replicate {A = Bytes} 1025 [] in
      rw filled_start.0 (
        split_from-full (suc (length src)) src (negsuc 0) [] (replicate 1025 []) (omega arith) h
          (omega arith) minus_one (omega (arith, size)))
    where
      minus_one : negsuc 0 +ℤ pos 1 ≡ pos 0
      minus_one = unfold ◌+ℤ◌ in refl
