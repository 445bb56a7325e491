-- ===== src/Array/Items/Laws.antt =====
-- What `<<` does to the items and to the dimensions, and that `>>` has no defined result.
use kaya_basic.Base.{
  ℕ, suc, ◌+◌, ◌≤◌, ◌<◌, ◌^◌, ◌≡◌, refl, sym, ◌∙◌, arith, false, List, [], ◌∷◌, ◌++◌, length,
  length-append, append-nil, append_assoc, ok,
}
use kaya_basic.Cpp.Int.{ℤ, pos, pos_part, neg_part, ◌+ℤ◌}
use kaya_basic.Cpp.Checked.{in_int, add_int}
use kaya_basic.Array.{Dim, Array, is_used}
use kaya_basic.Array.Redim.{IsSound}
use kaya_basic.Array.Items.{one_more, append, append_each, append_all}

-- An `int` stays one if `n` is added.
abbrev pub HasRoom : ℕ → ℤ → Type 0
HasRoom n z = (pos_part z + n < 2 ^ 31) × (neg_part z ≤ 2 ^ 31)

add_int-one : (z : ℤ) → HasRoom 1 z → add_int z (pos 1) ≡ ok (z +ℤ pos 1)
unfolding in_int ◌+ℤ◌
add_int-one z h = ground arith

room_left : (n : ℕ) (z : ℤ) → HasRoom (suc n) z → HasRoom n (z +ℤ pos 1)
unfolding ◌+ℤ◌
room_left n z h = ground arith

one_more-ok :
    (m : Dim)
    → HasRoom 1 m.d
    → HasRoom 1 m.hi
    → one_more m ≡ ok (record m { d = m.d +ℤ pos 1; hi = m.hi +ℤ pos 1 })
one_more-ok m h k = rw (add_int-one m.d h, add_int-one m.hi k) refl

module _ {A : Type 0} where
  abbrev longer : Array A → A → Array A
  longer a x = record a {
    dim1 = record a.dim1 { d = a.dim1.d +ℤ pos 1; hi = a.dim1.hi +ℤ pos 1 };
    items = a.items ++ x ∷ [];
  }

  longer-IsSound :
      (a : Array A) (x : A) → IsSound a → is_used a.dim2.d ≡ false → IsSound (longer a x)
  unfolding ◌+ℤ◌
  longer-IsSound a x s flat = ground (arith, length-append a.items (x ∷ []))

  append-longer :
      (a : Array A) (x : A)
      → is_used a.dim2.d ≡ false
      → HasRoom 1 a.dim1.d
      → HasRoom 1 a.dim1.hi
      → append a x ≡ ok (longer a x)
  unfolding append
  append-longer a x flat h k = rw (flat, one_more-ok a.dim1 h k) refl

  append_each-IsSound :
      (xs : List A) (a : Array A)
      → IsSound a
      → is_used a.dim2.d ≡ false
      → HasRoom (length xs) a.dim1.d
      → HasRoom (length xs) a.dim1.hi
      → (a' : Array A) × (append_each a xs ≡ ok a') × (a'.items ≡ a.items ++ xs) × IsSound a'
  unfolding append_each
  append_each-IsSound [] a s flat h k = (a, refl, sym (append-nil a.items), s)
  append_each-IsSound (x ∷ xs) a s flat h k =
      let (a', e, i, s') =
        append_each-IsSound xs (longer a x) (longer-IsSound a x s flat) flat
          (room_left (length xs) a.dim1.d h) (room_left (length xs) a.dim1.hi k) in
      (
        a',
        rw (append-longer a x flat (omega arith, h.1) (omega arith, k.1), e) refl,
        i ∙ append_assoc a.items (x ∷ []) xs,
        s',
      )

  -- `ar << ar2`, where `ar2` is another array, on a sound array of one dimension, whose count and
  -- upper bound stay inside an `int`: no addition overflows, the items of `ar2` stand behind the
  -- others in their order, and the array is sound again.
  pub append_all-IsSound :
      (a : Array A) (xs : List A)
      → IsSound a
      → is_used a.dim2.d ≡ false
      → HasRoom (length xs) a.dim1.d
      → HasRoom (length xs) a.dim1.hi
      → (a' : Array A) × (append_all a xs ≡ ok a') × (a'.items ≡ a.items ++ xs) × IsSound a'
  unfolding append_all
  append_all-IsSound a xs s flat h k =
      let (a', e, i, s') = append_each-IsSound xs a s flat h k in (a', rw (flat, e) refl, i, s')
