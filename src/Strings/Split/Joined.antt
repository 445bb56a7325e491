-- ===== src/Strings/Split/Joined.antt =====
-- `Join` of an array, and of what `Split` returns.
use kaya_basic.Array.Parts.{parts_array}
use kaya_basic.Base.{
  ℕ, zero, suc, ◌+◌, ◌-◌, ◌≤◌, ◌<◌, ◌^◌, ◌%◌, ◌≢◌, ◌≡◌, refl, sym, subst, lt→ltb, ap, ◌∙◌, arith,
  some, true, List, [], ◌∷◌, ◌++◌, Bool-cases, inl, inr, length, get_elem?, drop, drop-pred,
  take-append-drop, length-append, length-ne-zero, append_assoc, append-nil, Bytes, ok,
}
use kaya_basic.Array.{Array, get, offset1}
use kaya_basic.Array.Index.{at-ok}
use kaya_basic.Cpp.Floats.{Floats}
use kaya_basic.Cpp.Int.{pos, pos_part, ◌+ℤ◌, ◌-ℤ◌, pos-add-pos, pos-sub-pos}
use kaya_basic.Cpp.Text.{starts_with}
use kaya_basic.Cpp.Text.Find.{starts_with-OccursAt}
use kaya_basic.Strings.Split.{split, join_from, join}
use kaya_basic.Strings.Split.Laws.{split-parts}
use kaya_basic.Strings.Split.Reference.{parts, cons_head, parts-ne-nil}

module _ (sep : Bytes) where
  -- Every part behind a separator.
  behind : List Bytes → Bytes
  behind [] = []
  behind (p ∷ ps) = sep ++ p ++ behind ps

  -- The parts with a separator between two of them.
  unfoldable pub joined : List Bytes → Bytes
  unfolding behind
  joined [] = []
  joined (p ∷ ps) = p ++ behind ps

  behind-joined : (ps : List Bytes) → length ps ≢ 0 → behind ps ≡ sep ++ joined ps
  unfolding joined
  behind-joined [] h = absurd (h refl)
  behind-joined (p ∷ ps) h = append_assoc sep p (behind ps)

  joined-cons_head :
      (c : ℕ) (ps : List Bytes) → length ps ≢ 0 → joined (cons_head c ps) ≡ c ∷ joined ps
  unfolding joined
  joined-cons_head c [] h = absurd (h refl)
  joined-cons_head c (p ∷ ps) h = refl

  joined_hit :
      (c : ℕ) (s : Bytes)
      → starts_with sep (c ∷ s) ≡ true
      → joined (parts sep s (length sep - 1)) ≡ drop (length sep - 1) s
      → sep ≢ []
      → joined ([] ∷ parts sep s (length sep - 1)) ≡ c ∷ s
  unfolding joined
  joined_hit c s e ih ne =
      behind-joined (parts sep s (length sep - 1)) (parts-ne-nil sep s (length sep - 1))
      ∙ ap (λ t. sep ++ t) (ih ∙ sym (drop-pred (length sep) c s (length-ne-zero sep ne)))
      ∙ ap (λ t. t ++ drop (length sep) (c ∷ s)) (sym (starts_with-OccursAt sep (c ∷ s) e))
      ∙ take-append-drop (length sep) (c ∷ s)

  joined-parts : (s : Bytes) (k : ℕ) → sep ≢ [] → joined (parts sep s k) ≡ drop k s
  unfolding parts
  joined-parts [] zero ne = unfold joined in refl
  joined-parts [] (suc k) ne = unfold joined in refl
  joined-parts (c ∷ s) (suc k) ne = joined-parts s k ne
  joined-parts (c ∷ s) zero ne = elim (Bool-cases (starts_with sep (c ∷ s))) [
    | inl e ↦ rw e (joined_hit c s e (joined-parts s (length sep - 1) ne) ne)
    | inr e ↦ rw e (
        joined-cons_head c (parts sep s 0) (parts-ne-nil sep s 0)
        ∙ ap (λ t. c ∷ t) (joined-parts s 0 ne))
  ]

get_elem?-append :
    (done : List Bytes) (p : Bytes) (ps : List Bytes)
    → get_elem? (done ++ p ∷ ps) (length done) ≡ some p
get_elem?-append [] p ps = refl
get_elem?-append (x ∷ done) p ps = get_elem?-append done p ps

get-append :
    (done : List Bytes) (p : Bytes) (ps : List Bytes)
    → length done < 2 ^ 63
    → get (parts_array (done ++ p ∷ ps)) (pos (length done)) ≡ ok p
unfolding get offset1
get-append done p ps h =
    let same : length done - 0 ≡ length done = omega arith in
    let small : length done % 2 ^ 64 ≡ length done = omega arith in
    rw (pos-sub-pos (length done) 0 (omega arith), same)
      (at-ok (done ++ p ∷ ps) (length done) p (rw (small, get_elem?-append done p ps)))

module _ (sep : Bytes) (all : List Bytes) (h : length all < 2 ^ 62) where
  get_at :
      (done : List Bytes) (p : Bytes) (ps : List Bytes)
      → done ++ p ∷ ps ≡ all
      → get (parts_array all) (pos (length done)) ≡ ok p
  get_at done p ps e =
      subst (λ xs. get (parts_array xs) (pos (length done)) ≡ ok p) e
        (get-append done p ps (omega (arith, ap length e, length-append done (p ∷ ps))))

  next_index :
      (done : List Bytes) (p : Bytes) → pos (length done) +ℤ pos 1 ≡ pos (length (done ++ p ∷ []))
  next_index done p =
      pos-add-pos (length done) 1 ∙ ap pos (omega (arith, length-append done (p ∷ [])))

  -- From the second part on, each comes behind a separator.
  join_from-behind :
      (ps done : List Bytes) (result : Bytes)
      → done ++ ps ≡ all
      → length done ≢ 0
      → join_from (length ps) (pos (length done)) (parts_array all) sep result
        ≡ ok (result ++ behind sep ps)
  unfolding join_from behind
  join_from-behind [] done result e n = ap ok (sym (append-nil result))
  join_from-behind (p ∷ ps) done result e n =
      let positive : 0 + 0 < length done + 0 = omega arith in
      rw (get_at done p ps e, lt→ltb _ _ positive, next_index done p)
        (join_from-behind ps (done ++ p ∷ []) (result ++ sep ++ p)
            (append_assoc done (p ∷ []) ps ∙ e) (omega (arith, length-append done (p ∷ [])))
          ∙ ap ok (simp append_assoc))

rounds : (n : ℕ) → pos_part (pos (suc n - 1) +ℤ pos 1 -ℤ pos 0) ≡ suc n
rounds n =
    let last : suc n - 1 ≡ n = omega arith in
    let all_rounds : n + 1 - 0 ≡ suc n = omega arith in
    rw (last, pos-add-pos n 1, pos-sub-pos (n + 1) 0 (omega arith), all_rounds)

first :
    (sep p : Bytes) (ps : List Bytes)
    → length (p ∷ ps) < 2 ^ 62
    → join_from (suc (length ps)) (pos 0) (parts_array (p ∷ ps)) sep [] ≡ ok (joined sep (p ∷ ps))
unfolding join_from joined
first sep p ps h =
    rw (get_at sep (p ∷ ps) h [] p ps refl, next_index sep (p ∷ ps) h [] p)
      (join_from-behind sep (p ∷ ps) h ps (p ∷ []) p refl (omega arith))

-- `Join` of an array from 0 on, with at least one part and fewer than 2 ^ 62, puts a separator
-- between two parts.
pub join-joined :
    (sep : Bytes) (ps : List Bytes)
    → length ps ≢ 0
    → length ps < 2 ^ 62
    → join (parts_array ps) sep ≡ ok (joined sep ps)
unfolding join
join-joined sep [] ne h = absurd (ne refl)
join-joined sep (p ∷ ps) ne h =
    ap (λ k. join_from k (pos 0) (parts_array (p ∷ ps)) sep []) (rounds (length ps))
    ∙ first sep p ps h

-- Under the conditions of `split-parts`, `Split` returns an array, and joining that with the same
-- separator gives the text back.
pub join-split :
    (fl : Floats) (src sep : Bytes)
    → sep ≢ []
    → length src < 2 ^ 31 - 1
    → length (parts sep src 0) ≤ 1025
    → (a : Array Bytes) × (split fl (suc (length src)) src sep ≡ some (ok a))
      × (join a sep ≡ ok src)
join-split fl src sep ne h r = (
  parts_array (parts sep src 0),
  split-parts fl src sep ne h r,
  join-joined sep (parts sep src 0) (parts-ne-nil sep src 0) (omega arith)
      ∙ ap ok (joined-parts sep src 0 ne),
)
