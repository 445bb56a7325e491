-- ===== src/Strings/Replace/Reference.antt =====
-- What `Replace` is meant to return: the matches replaced from left to right, none overlapping.
use kaya_basic.Base.{
  ℕ, zero, suc, ◌+◌, ◌-◌, ◌≢◌, ◌≡◌, refl, arith, none, some, [], ◌∷◌, ◌++◌, if◌then◌else◌, length,
  take, drop, length-ne-zero, drop-pred, Bytes,
}
use kaya_basic.Cpp.Text.{starts_with, find?}
use kaya_basic.Cpp.Text.Find.{starts_with-nil}

module _ (old new : Bytes) where
  -- The number counts the bytes of a match that are still to be passed over.
  unfoldable pub replace_all : Bytes → ℕ → Bytes
  replace_all [] k = []
  replace_all (c ∷ s) (suc k) = replace_all s k
  replace_all (c ∷ s) zero =
      let replaced = new ++ replace_all s (length old - 1) in
      let kept = c ∷ replace_all s 0 in if starts_with old (c ∷ s) then replaced else kept

  pub replace_all-drop : (s : Bytes) (k : ℕ) → replace_all s k ≡ replace_all (drop k s) 0
  unfolding replace_all
  replace_all-drop [] zero = refl
  replace_all-drop [] (suc k) = refl
  replace_all-drop (c ∷ s) zero = refl
  replace_all-drop (c ∷ s) (suc k) = replace_all-drop s k

  pub replace_all-none : (s : Bytes) → find? old s ≡ none → replace_all s 0 ≡ s
  unfolding replace_all find?
  replace_all-none [] h = refl
  replace_all-none (c ∷ s) h = ground (arith, replace_all-none s)

  -- Up to the first match the text is kept, and the search goes on behind that match.
  pub replace_all-some :
      (s : Bytes) (i : ℕ)
      → old ≢ []
      → find? old s ≡ some i
      → replace_all s 0 ≡ take i s ++ new ++ replace_all (drop (i + length old) s) 0
  unfolding replace_all find?
  replace_all-some [] i ne h = ground (arith, starts_with-nil old ne)
  replace_all-some (c ∷ s) zero ne h =
      let e : 0 + length old ≡ length old = omega arith in
      rw e (
        ground (
          arith,
          replace_all-drop s (length old - 1),
          drop-pred (length old) c s,
          length-ne-zero old ne,
        ))
  replace_all-some (c ∷ s) (suc i) ne h =
      let e : suc i + length old ≡ suc (i + length old) = omega arith in
      rw e (ground (arith, replace_all-some s i ne))
