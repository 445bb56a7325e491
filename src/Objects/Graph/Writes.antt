-- ===== src/Objects/Graph/Writes.antt =====
-- Writing a field of an object, making an object, and assigning to a reference.
use kaya_basic.Base.{
  ℕ, ◌+◌, ◌<◌, ◌≡◌, refl, sym, ap, ◌∙◌, arith, ℕ_discrete, true, false, Option, none, some, List,
  ◌∷◌, ◌==◌, get_elem?, set, Outcome, ok,
}
use kaya_basic.Objects.{Ptr}
use kaya_basic.Objects.Counted.{refs_to, counted, ref_to, refs_to-cons, refs_to-set}
use kaya_basic.Objects.Graph.{Cell, Graph}
use kaya_basic.Objects.Graph.Counts.{
  refs_in, count_of, count_at, fields_at, refs_in-set, count_at-set, Survives, Counted,
}
use kaya_basic.Objects.Graph.Cascade.{refs, release-Counted}
use kaya_basic.Objects.Graph.Edits.{SameFields, add-Counted}
use kaya_basic.Objects.Graph.Programs.{write_field, assign_to}

-- Something that holds of the fields of every object.
abbrev pub Every : (Ptr → List (Option Ptr) → Type 0) → Graph → Type 0
Every P g = (q : Ptr) (fs : List (Option Ptr)) → fields_at g q ≡ some fs → P q fs

pub Every-Survives :
    (P : Ptr → List (Option Ptr) → Type 0) (g g' : Graph) → Survives g g' → Every P g → Every P g'
Every-Survives P g g' s h q fs e = h q fs (s q fs e)

pub Every-SameFields :
    (P : Ptr → List (Option Ptr) → Type 0) (g g' : Graph) → SameFields g g' → Every P g → Every P g'
Every-SameFields P g g' s h q fs e = h q fs (sym (s q) ∙ e)

-- The same references in another order.
pub Counted-same :
    (g : Graph) (rs rs' : List (Option Ptr))
    → ((p : Ptr) → refs_to p rs ≡ refs_to p rs')
    → Counted g rs
    → Counted g rs'
Counted-same g rs rs' same h p = h p ∙ ap (λ n. counted (n + refs_in p g)) (same p)

pub write_field-found :
    (p f : ℕ) (x : Option Ptr) (g : Graph) (c : Cell)
    → get_elem? g p ≡ some (some c)
    → write_field p f x g ≡ ok (set g p (some (record c { fields = set c.fields f x })))
unfolding write_field
write_field-found p f x g c e = rw e refl

-- A field of an object that is there is written: what it referred to is now a reference of its own,
-- and the one that is written is no longer.
pub write_field-Counted :
    (p f : ℕ) (old x : Option Ptr) (rs : List (Option Ptr)) (g : Graph) (c : Cell)
    → get_elem? g p ≡ some (some c)
    → get_elem? c.fields f ≡ some old
    → Counted g (x ∷ rs)
    → Counted (set g p (some (record c { fields = set c.fields f x }))) (old ∷ rs)
write_field-Counted p f old x rs g c e e' h q =
    let c' : Cell = record c { fields = set c.fields f x } in
    let same : refs q (x ∷ rs) g ≡ refs q (old ∷ rs) (set g p (some c')) = omega (
      arith,
      refs_in-set q g p (some c) (some c') e,
      refs_to-set q c.fields f old x e',
      refs_to-cons q x rs,
      refs_to-cons q old rs,
    ) in
    count_at-set g p (some c) (some c') q e
    ∙ elim (ℕ_discrete p q) [
      | yes here ↦
          let t : (p == q) ≡ true = ground arith in
          rw t (sym (ap count_of e) ∙ ap (count_at g) here)
      | no other ↦ let t : (p == q) ≡ false = ground arith in rw t refl
    ]
    ∙ h q
    ∙ ap counted same

in_front :
    (x : Option Ptr) (p : Ptr) (rs : List (Option Ptr)) (g : Graph)
    → x ≡ some p
    → 0 < refs p (x ∷ rs) g
in_front x p rs g e = ground (arith, refs_to-cons p x rs, ap (ref_to p) e)

-- `r = x`, from the references `before` to the references `after`: `P` holds of the fields first,
-- `Q` while the reference is empty, and `R` in the end.
module _ (put : Option Ptr → Graph → Outcome Graph) (old x : Option Ptr)
    (before between after : List (Option Ptr)) (P Q R : Ptr → List (Option Ptr) → Type 0)
    (emptied : (g : Graph)
      → Counted g (x ∷ before)
      → Every P g
      → (g' : Graph) × (put none g ≡ ok g') × Counted g' (old ∷ x ∷ between) × Every Q g')
    (written : (g : Graph)
      → Counted g (x ∷ x ∷ between)
      → Every Q g
      → (g' : Graph) × (put x g ≡ ok g') × Counted g' (x ∷ after) × Every R g') where
  pub assign_to-Counted :
      (g : Graph)
      → Counted g before
      → Every P g
      → ((p : Ptr) → x ≡ some p → 0 < refs p before g)
      → (g' : Graph) × (assign_to put old x g ≡ ok g') × Counted g' after × Every R g'
  unfolding assign_to
  assign_to-Counted g h w has =
      let (g1, e1, h1, s1, l1) = add-Counted x before g h has in
      let (g2, e2, h2, w2) = emptied g1 h1 (Every-SameFields P g g1 s1 w) in
      let (g3, e3, h3, s3) = release-Counted old (x ∷ between) g2 h2 in
      let (g4, e4, h4, s4, l4) = add-Counted x (x ∷ between) g3 h3 (λ p. in_front x p between g3) in
      let w4 = Every-SameFields Q g3 g4 s4 (Every-Survives Q g2 g3 s3 w2) in
      let (g5, e5, h5, w5) = written g4 h4 w4 in
      let (g6, e6, h6, s6) = release-Counted x after g5 h5 in
      (g6, rw (e1, e2, e3, e4, e5, e6) refl, h6, Every-Survives R g5 g6 s6 w5)
