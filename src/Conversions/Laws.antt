-- ===== src/Conversions/Laws.antt =====
-- A reference that goes through a `variant`.
use kaya_basic.Base.{
  ℕ, ◌^◌, ◌≤◌, ◌≢◌, ◌≡◌, refl, arith, Bool, false, Option, some, List, ◌∷◌, ◌==◌, ok,
}
use kaya_basic.Cpp.Floats.{Floats}
use kaya_basic.Cpp.Int.{pos}
use kaya_basic.Cpp.Word.{to_size, to_long}
use kaya_basic.Objects.{Ptr, Heap, Ref, ref_of}
use kaya_basic.Objects.Counted.{refs_to, Counted, addref-Counted}
use kaya_basic.Variant.{of_double, assign}
use kaya_basic.Conversions.{variant_of_ref, ref_of_variant}

module _ (fl : Floats) where
  variant_of_ref_address :
      (address : Ptr → ℕ) (p : Ptr) (me : Bool)
      → address p ≤ 2 ^ 53
      → to_size (fl.to_long (variant_of_ref fl address (record { ptr = some p; me = me })).n)
        ≡ address p
  unfolding variant_of_ref of_double assign
  variant_of_ref_address address p me b =
      let small : to_long (address p) ≡ pos (address p) = ground arith in
      rw (small, fl.to_long-of_long (address p) b) (omega arith)

  -- A reference to an object that is still counted comes back from a `variant` as a reference to
  -- the same object, which counts it, as long as the address of the object is not above 2 ^ 53.
  pub ref_of_variant-variant_of_ref :
      (address : Ptr → ℕ) (object_at : ℕ → Option Ptr) (p : Ptr) (me : Bool) (h : Heap)
      (rs : List (Option Ptr))
      → address p ≢ 0
      → address p ≤ 2 ^ 53
      → object_at (address p) ≡ some p
      → Counted h rs
      → refs_to p rs ≢ 0
      → let r : Ref = record { ptr = some p; me = me } in
        (h' : Heap) × (ref_of_variant fl object_at (variant_of_ref fl address r) h
          ≡ ok (h', record { ptr = some p; me = false }))
        × Counted h' (some p ∷ rs)
  unfolding ref_of_variant ref_of
  ref_of_variant-variant_of_ref address object_at p me h rs ne b found c has =
      let (h', e, c') = addref-Counted h rs p c has in
      let not_null : (address p == 0) ≡ false = ground arith in
      (h', rw (variant_of_ref_address address p me b, not_null, found, e) refl, c')
