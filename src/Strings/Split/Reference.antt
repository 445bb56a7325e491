-- ===== src/Strings/Split/Reference.antt =====
-- What `Split` is meant to return: the parts between the separators, found from left to right.
use kaya_basic.Base.{
  ℕ, zero, suc, ◌+◌, ◌-◌, ◌<◌, ◌≢◌, ◌≡◌, refl, arith, none, some, List, [], ◌∷◌, if◌then◌else◌,
  length, length-ne-zero, drop-pred, take, drop, Bytes,
}
use kaya_basic.Cpp.Text.{starts_with, find?}
use kaya_basic.Cpp.Text.Find.{starts_with-nil}

abbrev pub cons_head : ℕ → List Bytes → List Bytes
cons_head c [] = (c ∷ []) ∷ []
cons_head c (p ∷ ps) = (c ∷ p) ∷ ps

module _ (sep : Bytes) where
  -- The number counts the bytes of a separator that are still to be passed over.
  unfoldable pub parts : Bytes → ℕ → List Bytes
  parts [] k = [] ∷ []
  parts (c ∷ s) (suc k) = parts s k
  parts (c ∷ s) zero =
      let new_part = [] ∷ parts s (length sep - 1) in
      let longer = cons_head c (parts s 0) in if starts_with sep (c ∷ s) then new_part else longer

  parts-drop : (s : Bytes) (k : ℕ) → parts s k ≡ parts (drop k s) 0
  unfolding parts
  parts-drop [] zero = refl
  parts-drop [] (suc k) = refl
  parts-drop (c ∷ s) zero = refl
  parts-drop (c ∷ s) (suc k) = parts-drop s k

  pub parts-none : (s : Bytes) → find? sep s ≡ none → parts s 0 ≡ s ∷ []
  unfolding parts find?
  parts-none [] h = refl
  parts-none (c ∷ s) h = ground (arith, parts-none s)

  pub parts-some :
      (s : Bytes) (i : ℕ)
      → sep ≢ []
      → find? sep s ≡ some i
      → parts s 0 ≡ take i s ∷ parts (drop (i + length sep) s) 0
  unfolding parts find?
  parts-some [] i ne h = ground (arith, starts_with-nil sep ne)
  parts-some (c ∷ s) zero ne h =
      let e : 0 + length sep ≡ length sep = omega arith in
      rw e (
        ground
          (arith, parts-drop s (length sep - 1), drop-pred (length sep) c s, length-ne-zero sep ne))
  parts-some (c ∷ s) (suc i) ne h =
      let e : suc i + length sep ≡ suc (i + length sep) = omega arith in
      rw e (ground (arith, parts-some s i ne))

  cons_head-length : (c : ℕ) (ps : List Bytes) → 0 < length (cons_head c ps)
  cons_head-length c [] = omega arith
  cons_head-length c (p ∷ ps) = omega arith

  pub parts-ne-nil : (s : Bytes) (k : ℕ) → length (parts s k) ≢ 0
  unfolding parts
  parts-ne-nil [] k = omega arith
  parts-ne-nil (c ∷ s) (suc k) = parts-ne-nil s k
  parts-ne-nil (c ∷ s) zero = ground (arith, cons_head-length c (parts s 0))
