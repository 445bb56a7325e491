-- ===== src/Objects/Graph/Programs/Fields.antt =====
-- What the events of a program do to the references of variables and fields.
use kaya_basic.Base.{
  ℕ, zero, suc, ◌≤◌, ◌<◌, ◌≡◌, refl, sym, ap, ◌∙◌, arith, ℕ_discrete, inl, inr, true, false, Option,
  Option-cases, none, some, List, [], ◌∷◌, ◌==◌, if◌then◌else◌, length, get_elem?, get_elem?-none,
  set, length-set, ok, ◌>>=◌,
}
use mathlib.Core.Option.{none-ne-some, some-injective}
use kaya_basic.Cpp.Int.{pos}
use kaya_basic.Objects.{Ptr}
use kaya_basic.Objects.Counted.{refs_to, refs_to-cons, refs_to-set, refs_to-get_elem?}
use kaya_basic.Objects.Graph.{Cell, Graph}
use kaya_basic.Objects.Graph.Counts.{
  refs_in, count_at, fields_of, fields_at, fields_at-set, refs_in-set, Counted,
}
use kaya_basic.Objects.Graph.Cascade.{refs, cell_found}
use kaya_basic.Objects.Graph.Writes.{
  Every, Counted-same, write_field-Counted, write_field-found, assign_to-Counted,
}
use kaya_basic.Objects.Graph.Programs.{World, known, there, field, write_field, assign_to}

-- Every object has so many fields.
abbrev pub Wide : ℕ → Ptr → List (Option Ptr) → Type 0
Wide width q fs = length fs ≡ width

-- What holds of a world with `n` variables.
pub record IsSound (width : ℕ) (w : World) (n : ℕ) : Type 0 where
  pub size : length w.vars ≡ n
  pub refs : Counted w.graph w.vars
  pub wide : Every (Wide width) w.graph

pub known-some :
    {A : Type 0} (xs : List A) (i : ℕ) → i < length xs → (x : A) × (get_elem? xs i ≡ some x)
known-some xs i h = elim (Option-cases (get_elem? xs i)) [
  | inl e ↦ absurd (get_elem?-none xs i h e)
  | inr found ↦ found
]

-- What a variable refers to is counted.
pub held :
    (w : World) (i : ℕ) (x : Option Ptr) (p : Ptr)
    → get_elem? w.vars i ≡ some x
    → x ≡ some p
    → 0 < refs p w.vars w.graph
held w i x p e here = ground (arith, refs_to-get_elem? p w.vars i (e ∙ ap some here))

pub refs_of-refs_in :
    (q p : Ptr) (g : Graph) (c : Cell)
    → get_elem? g p ≡ some (some c)
    → refs_to q c.fields ≤ refs_in q g
refs_of-refs_in q p g c e = omega (arith, refs_in-set q g p (some c) none e)

pub assign_all :
    (P : Ptr → List (Option Ptr) → Type 0) (vs : List (Option Ptr)) (i : ℕ) (old x : Option Ptr)
    (g : Graph)
    → get_elem? vs i ≡ some old
    → Counted g vs
    → Every P g
    → ((p : Ptr) → x ≡ some p → 0 < refs p vs g)
    → (g' : Graph) × (assign_to (λ v h. ok h) old x g ≡ ok g')
      × Counted g' (set vs i x)
      × Every P g'
assign_all P vs i old x g e =
    assign_to-Counted (λ v h. ok h) old x vs (set vs i none) (set vs i x) P P P
      (λ h c w. (h, refl, Counted-same h (x ∷ vs) (old ∷ x ∷ set vs i none) before c, w))
      (λ h c w. (h, refl, Counted-same h (x ∷ x ∷ set vs i none) (x ∷ set vs i x) after c, w)) g
  where
    before : (p : Ptr) → refs_to p (x ∷ vs) ≡ refs_to p (old ∷ x ∷ set vs i none)
    before p = omega (
      arith,
      refs_to-set p vs i old x e,
      refs_to-cons p x vs,
      refs_to-cons p old (x ∷ set vs i none),
      refs_to-cons p x (set vs i none),
    )

    after : (p : Ptr) → refs_to p (x ∷ x ∷ set vs i none) ≡ refs_to p (x ∷ set vs i x)
    after p = omega (
      arith,
      refs_to-set p vs i old x e,
      refs_to-cons p x (x ∷ set vs i none),
      refs_to-cons p x (set vs i none),
      refs_to-cons p x (set vs i x),
    )

set_here :
    {A : Type 0} (xs : List A) (f : ℕ) (v x : A)
    → get_elem? xs f ≡ some v
    → get_elem? (set xs f x) f ≡ some x
set_here [] f v x e = absurd (none-ne-some v e)
set_here (y ∷ xs) zero v x e = refl
set_here (y ∷ xs) (suc f) v x e = set_here xs f v x e

-- The field `f` of the object `p` is `v`.
abbrev pub Holding : ℕ → ℕ → ℕ → Option Ptr → Ptr → List (Option Ptr) → Type 0
Holding width p f v q fs = Wide width q fs × (p ≡ q → get_elem? fs f ≡ some v)

put-Holding :
    (width p f : ℕ) (v x : Option Ptr) (g : Graph) (c : Cell)
    → get_elem? g p ≡ some (some c)
    → get_elem? c.fields f ≡ some v
    → Every (Holding width p f v) g
    → Every (Holding width p f x) (set g p (some (record c { fields = set c.fields f x })))
put-Holding width p f v x g c e e' w q fs k =
    let c' : Cell = record c { fields = set c.fields f x } in
    let now : (if p == q then some (set c.fields f x) else fields_at g q) ≡ some fs =
      sym (fields_at-set g p (some c) (some c') q e) ∙ k in
    elim (ℕ_discrete p q) [
      | yes here ↦
          let t : (p == q) ≡ true = ground arith in
          let same : set c.fields f x ≡ fs = some-injective _ _ (rw t at now) in
          let size : length c.fields ≡ width = (w p c.fields (ap fields_of e)).0 in
          (
            ap length (sym same) ∙ length-set c.fields f x ∙ size,
            λ here. ap (λ fs. get_elem? fs f) (sym same) ∙ set_here c.fields f v x e',
          )
      | no other ↦
          let t : (p == q) ≡ false = ground arith in
          let old : fields_at g q ≡ some fs = rw t at now in
          ((w q fs old).0, λ here. absurd (other here))
    ]

put_field :
    (width p f : ℕ) (v x : Option Ptr) (rs : List (Option Ptr)) (g : Graph)
    → 0 < refs_to p rs
    → Counted g (x ∷ rs)
    → Every (Holding width p f v) g
    → (g' : Graph) × (write_field p f x g ≡ ok g')
      × Counted g' (v ∷ rs)
      × Every (Holding width p f x) g'
put_field width p f v x rs g some_ref h w =
    let n = refs p (x ∷ rs) g in
    let alive : count_at g p ≡ some (pos n) = h p ∙ ground (arith, refs_to-cons p x rs) in
    let (c, e, k) = cell_found (get_elem? g p) (pos n) alive in
    let at_f : get_elem? c.fields f ≡ some v = (w p c.fields (ap fields_of e)).1 refl in
    (
      set g p (some (record c { fields = set c.fields f x })),
      write_field-found p f x g c e,
      write_field-Counted p f v x rs g c e at_f h,
      put-Holding width p f v x g c e at_f w,
    )

pub store_all :
    (width p f : ℕ) (vs : List (Option Ptr)) (old x : Option Ptr) (g : Graph)
    → 0 < refs_to p vs
    → Counted g vs
    → Every (Holding width p f old) g
    → ((q : Ptr) → x ≡ some q → 0 < refs q vs g)
    → (g' : Graph) × (assign_to (λ v h. write_field p f v h) old x g ≡ ok g')
      × Counted g' vs
      × Every (Holding width p f x) g'
store_all width p f vs old x g some_ref =
    let later : 0 < refs_to p (x ∷ vs) = omega (arith, refs_to-cons p x vs, some_ref) in
    assign_to-Counted (λ v h. write_field p f v h) old x vs vs vs (Holding width p f old)
      (Holding width p f none) (Holding width p f x)
      (λ h c w. put_field width p f old none (x ∷ vs) h later c w)
      (λ h c w. put_field width p f none x (x ∷ vs) h later c w) g

-- A field of the object that a variable refers to is there.
pub field_found :
    (width p f : ℕ) (w : World) (n : ℕ)
    → 0 < refs_to p w.vars
    → f < width
    → IsSound width w n
    → (c : Cell) × (x : Option Ptr) × (get_elem? w.graph p ≡ some (some c))
      × (get_elem? c.fields f ≡ some x)
      × (field p f w.graph ≡ ok x)
unfolding field
field_found width p f w n some_ref b s =
    let alive : count_at w.graph p ≡ some (pos (refs p w.vars w.graph)) = s.refs p ∙ ground arith in
    let (c, at_p, k) = cell_found (get_elem? w.graph p) (pos (refs p w.vars w.graph)) alive in
    let size : length c.fields ≡ width = s.wide p c.fields (ap fields_of at_p) in
    let (x, at_f) = known-some c.fields f (omega arith) in
    (c, x, at_p, at_f, ap (λ o. do c ← there o; known (get_elem? c.fields f)) at_p ∙ ap known at_f)

pub holds_old :
    (width p f : ℕ) (w : World) (n : ℕ) (c : Cell) (old : Option Ptr)
    → get_elem? w.graph p ≡ some (some c)
    → get_elem? c.fields f ≡ some old
    → IsSound width w n
    → Every (Holding width p f old) w.graph
holds_old width p f w n c old at_p at_f s q fs h = (
  s.wide q fs h,
  λ here.
      let same : c.fields ≡ fs =
        some-injective _ _ (sym (ap fields_of at_p) ∙ ap (fields_at w.graph) here ∙ h) in
      ap (λ fs. get_elem? fs f) (sym same) ∙ at_f,
)
