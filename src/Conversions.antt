-- ===== src/Conversions.antt =====
-- The conversions that a translated program writes with `conv`, a `variant` that holds a `ref`, and
-- `Defer`, of lib/core/core.h.
pub mod Laws
use kaya_basic.Base.{
  ℕ, Bool, true, false, Option, none, some, List, [], ◌∷◌, ◌==◌, if◌then◌else◌, Bytes, Outcome, ok,
  undefined, ◌>>=◌,
}
use kaya_basic.Cpp.Floats.{Floats}
use kaya_basic.Cpp.Int.{ℤ, pos}
use kaya_basic.Cpp.Text.{c_str}
use kaya_basic.Cpp.Word.{to_size, to_long}
use kaya_basic.Objects.{Ptr, Heap, Ref, ref_of}
use kaya_basic.Variant.{Variant, of_double, of_string, assign, to_double, to_string}

-- `conv` of a reference, of a value of the type that is wanted, and of a text of C.
unfoldable pub conv_ref : Ref → Heap → Outcome (Heap × Ref)
conv_ref x h = ref_of x.ptr false h

unfoldable pub conv_same {ℓ} : {T : Type ℓ} → T → T
conv_same x = x

unfoldable pub conv_chars : Bytes → Bytes
conv_chars x = c_str x

-- An operator of `ref`, which is that of the object, and makes a `ref` of what it gives.
unfoldable pub through :
    {A : Type 0}
    → (Ptr → A → Heap → Outcome (Heap × Option Ptr))
    → Ref
    → A
    → Heap
    → Outcome (Heap × Ref)
through op r arg h = elim r.ptr [
  | none ↦ undefined
  | some p ↦ do (h', x) ← op p arg h; ref_of x false h'
]

module _ (fl : Floats) where
  open fl use {Double, of_long}

  -- `conv` through a `variant`, of a text to a number and of a number to a text.
  unfoldable pub conv_number : Bytes → Double
  conv_number x = to_double fl (of_string fl x)

  unfoldable pub conv_text : Double → Bytes
  conv_text x = to_string fl (of_double fl x)

  -- `address` is where an object is; a null pointer is 0.
  abbrev pub pointer_of : (Ptr → ℕ) → Option Ptr → ℕ
  pointer_of address none = 0
  pointer_of address (some p) = address p

  -- `*this = (Long)p.ptr;`
  unfoldable pub variant_of_ref : (Ptr → ℕ) → Ref → Variant fl
  variant_of_ref address r = assign fl (of_double fl (of_long (to_long (pointer_of address r.ptr))))

  -- `(void*)Long(n)`, and the constructor of `ref` that it goes to. `object_at` is the object at an
  -- address; another one than 0 where no object is has no defined result.
  unfoldable pub ref_of_variant : (ℕ → Option Ptr) → Variant fl → Heap → Outcome (Heap × Ref)
  ref_of_variant object_at v h =
      let a = to_size (fl.to_long v.n) in
      if a == 0
      then ref_of none false h
      else elim (object_at a) [ none ↦ undefined | some p ↦ ref_of (some p) false h ]

-- `Defer`: a function that may be empty, which the destructor calls.
unfoldable pub end_defer : {W : Type 0} → Option (W → W) → W → W
end_defer none w = w
end_defer (some f) w = f w

-- The end of a scope: the last that was made goes first.
unfoldable pub end_scope : {W : Type 0} → List (Option (W → W)) → W → W
unfolding end_defer
end_scope [] w = w
end_scope (f ∷ fs) w = end_scope fs (end_defer f w)
