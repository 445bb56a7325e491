-- ===== src/Objects/Graph/Counts.antt =====
-- The references that the objects of a graph hold.
use kaya_basic.Base.{
  ℕ, zero, suc, ◌+◌, ◌≡◌, refl, sym, ap, ◌∙◌, arith, ℕ_discrete, ◌⊎◌, inl, inr, Bool, true, false,
  Option, none, some, List, [], ◌∷◌, ◌++◌, ◌==◌, if◌then◌else◌, length, get_elem?, set,
}
use mathlib.Core.Option.{none-ne-some, some-injective}
use kaya_basic.Cpp.Int.{ℤ}
use kaya_basic.Objects.{Ptr}
use kaya_basic.Objects.Counted.{refs_to, counted}
use kaya_basic.Objects.Graph.{Cell, Graph, total}

-- The references to `p` that the fields of an object, and of all objects, are.
abbrev pub refs_of : Ptr → Option Cell → ℕ
refs_of p none = 0
refs_of p (some c) = refs_to p c.fields

abbrev pub refs_in : Ptr → Graph → ℕ
refs_in p [] = 0
refs_in p (c ∷ g) = refs_of p c + refs_in p g

abbrev pub count_of : Option (Option Cell) → Option ℤ
count_of none = none
count_of (some none) = none
count_of (some (some c)) = some c.count

abbrev pub count_at : Graph → Ptr → Option ℤ
count_at g p = count_of (get_elem? g p)

pub refs_to-append :
    (p : Ptr) (rs ss : List (Option Ptr)) → refs_to p (rs ++ ss) ≡ refs_to p rs + refs_to p ss
refs_to-append p [] ss = omega arith
refs_to-append p (none ∷ rs) ss = refs_to-append p rs ss
refs_to-append p (some q ∷ rs) ss = omega (arith, refs_to-append p rs ss)

-- An object is written over.
pub refs_in-set :
    (q : Ptr) (g : Graph) (p : Ptr) (c x : Option Cell)
    → get_elem? g p ≡ some c
    → refs_in q (set g p x) + refs_of q c ≡ refs_in q g + refs_of q x
refs_in-set q [] p c x e = absurd (none-ne-some c e)
refs_in-set q (d ∷ g) zero c x e = rw (some-injective _ _ e) (omega arith)
refs_in-set q (d ∷ g) (suc p) c x e = omega (arith, refs_in-set q g p c x e)

abbrev pub size_of : Option Cell → ℕ
size_of none = 0
size_of (some c) = length c.fields

total-cons : (c : Option Cell) (g : Graph) → total (c ∷ g) ≡ size_of c + total g
unfolding total
total-cons none g = omega arith
total-cons (some c) g = refl

pub total-set :
    (g : Graph) (p : Ptr) (c x : Option Cell)
    → get_elem? g p ≡ some c
    → total (set g p x) + size_of c ≡ total g + size_of x
total-set [] p c x e = absurd (none-ne-some c e)
total-set (d ∷ g) zero c x e =
    rw (total-cons x g, total-cons d g, some-injective _ _ e) (omega arith)
total-set (d ∷ g) (suc p) c x e =
    rw (total-cons d (set g p x), total-cons d g) (omega (arith, total-set g p c x e))

pub get_elem?-set :
    (g : Graph) (p : Ptr) (c x : Option Cell) (q : Ptr)
    → get_elem? g p ≡ some c
    → get_elem? (set g p x) q ≡ (if p == q then some x else get_elem? g q)
get_elem?-set [] p c x q e = absurd (none-ne-some c e)
get_elem?-set (d ∷ g) zero c x zero e = refl
get_elem?-set (d ∷ g) zero c x (suc q) e =
    let apart : (0 == suc q) ≡ false = ground arith in rw apart refl
get_elem?-set (d ∷ g) (suc p) c x zero e =
    let apart : (suc p == 0) ≡ false = ground arith in rw apart refl
get_elem?-set (d ∷ g) (suc p) c x (suc q) e =
    let same : (suc p == suc q) ≡ (p == q) = ground arith in rw same (get_elem?-set g p c x q e)

if_ap {ℓ κ} :
    {A : Type ℓ} {B : Type κ} (f : A → B) (b : Bool) (x y : A)
    → f (if b then x else y) ≡ (if b then f x else f y)
if_ap f true x y = refl
if_ap f false x y = refl

pub count_at-set :
    (g : Graph) (p : Ptr) (c x : Option Cell) (q : Ptr)
    → get_elem? g p ≡ some c
    → count_at (set g p x) q ≡ (if p == q then count_of (some x) else count_at g q)
count_at-set g p c x q e =
    ap count_of (get_elem?-set g p c x q e) ∙ if_ap count_of (p == q) (some x) (get_elem? g q)

-- The fields of an object that is there.
abbrev pub fields_of : Option (Option Cell) → Option (List (Option Ptr))
fields_of none = none
fields_of (some none) = none
fields_of (some (some c)) = some c.fields

abbrev pub fields_at : Graph → Ptr → Option (List (Option Ptr))
fields_at g p = fields_of (get_elem? g p)

pub fields_at-set :
    (g : Graph) (p : Ptr) (c x : Option Cell) (q : Ptr)
    → get_elem? g p ≡ some c
    → fields_at (set g p x) q ≡ (if p == q then fields_of (some x) else fields_at g q)
fields_at-set g p c x q e =
    ap fields_of (get_elem?-set g p c x q e) ∙ if_ap fields_of (p == q) (some x) (get_elem? g q)

-- The objects that are left have the fields that they had.
abbrev pub Survives : Graph → Graph → Type 0
Survives g g' =
    (p : Ptr) (fs : List (Option Ptr)) → fields_at g' p ≡ some fs → fields_at g p ≡ some fs

survive_at :
    {A : Type 0} (p q : Ptr) (o o' : Option A) (fs cs : A)
    → (if p == q then o' else o) ≡ some fs
    → (o' ≡ none) ⊎ (o' ≡ some cs)
    → (p ≡ q → o ≡ some cs)
    → o ≡ some fs
survive_at p q o o' fs cs h kept same = elim (ℕ_discrete p q) [
  | yes here ↦
      let t : (p == q) ≡ true = ground arith in
      let h' : o' ≡ some fs = rw t at h in
      elim kept [
        | inl gone ↦ absurd (none-ne-some fs (sym gone ∙ h'))
        | inr k ↦ same here ∙ sym k ∙ h'
      ]
  | no other ↦ let f : (p == q) ≡ false = ground arith in rw f at h
]

-- An object is deleted, or its fields stay.
pub set-Survives :
    (g : Graph) (p : Ptr) (c : Cell) (x : Option Cell)
    → get_elem? g p ≡ some (some c)
    → (fields_of (some x) ≡ none) ⊎ (fields_of (some x) ≡ some c.fields)
    → Survives g (set g p x)
set-Survives g p c x e kept q fs h =
    survive_at p q (fields_at g q) (fields_of (some x)) fs c.fields
      (sym (fields_at-set g p (some c) x q e) ∙ h) kept
      (λ here. ap (fields_at g) (sym here) ∙ ap fields_of e)

-- The counts are those of the references `rs` and of the fields; an object without a reference was
-- deleted.
abbrev pub Counted : Graph → List (Option Ptr) → Type 0
Counted g rs = (p : Ptr) → count_at g p ≡ counted (refs_to p rs + refs_in p g)
