-- ===== src/Objects/Graph/Ranked.antt =====
-- Without a cycle of references, the objects go when the last reference from outside does.
use kaya_basic.Base.{
  ℕ, zero, suc, ◌+◌, ◌≤◌, ◌<◌, ◌≡◌, refl, sym, ap, subst, ◌∙◌, arith, ℕ_discrete, Option, none,
  some, List, [], ◌∷◌, append-nil, length, get_elem?, ok,
}
use mathlib.Core.Option.{none-ne-some}
use kaya_basic.Objects.{Ptr}
use kaya_basic.Objects.Counted.{refs_to, counted}
use kaya_basic.Objects.Graph.{Cell, Graph, release_all, total}
use kaya_basic.Objects.Graph.Counts.{refs_in, count_of, count_at, fields_of, Counted}
use kaya_basic.Objects.Graph.Cascade.{release_all-Counted}
use kaya_basic.Objects.Graph.Writes.{Every, Every-Survives}

-- Each reference of a field leads to an object of a smaller rank, so that there is no cycle.
abbrev pub Falling : (Ptr → ℕ) → Ptr → List (Option Ptr) → Type 0
Falling rank q fs = (p : Ptr) → 0 < refs_to p fs → rank p < rank q

-- An object that a field refers to has an object with such a field.
holder :
    (p : Ptr) (g : Graph)
    → 0 < refs_in p g
    → (q : Ptr) × (c : Cell) × (get_elem? g q ≡ some (some c)) × (0 < refs_to p c.fields)
holder p [] h = absurd (omega arith)
holder p (none ∷ g) h = let (q, c, e, b) = holder p g (omega arith) in (suc q, c, e, b)
holder p (some c ∷ g) h = elim (ℕ_discrete (refs_to p c.fields) 0) [
  | no some_ref ↦ (0, c, refl, omega arith)
  | yes no_ref ↦ let (q, c', e, b) = holder p g (omega arith) in (suc q, c', e, b)
]

unheld :
    (rank : Ptr → ℕ) (bound k : ℕ) (p : Ptr) (g : Graph)
    → Counted g []
    → Every (Falling rank) g
    → ((q : Ptr) → rank q < bound)
    → bound ≤ rank p + k
    → refs_in p g ≡ 0
unheld rank bound zero p g h falling below b = absurd (omega (arith, below p))
unheld rank bound (suc k) p g h falling below b = elim (ℕ_discrete (refs_in p g) 0) [
  | yes e ↦ e
  | no some_ref ↦
      let (q, c, e, has) = holder p g (omega arith) in
      let higher = falling q c.fields (ap fields_of e) p has in
      let gone : 0 + refs_in q g ≡ 0 =
        omega (arith, unheld rank bound k q g h falling below (omega arith)) in
      absurd (none-ne-some c.count (sym (ap counted gone) ∙ sym (h q) ∙ ap count_of e))
]

-- All references from outside are released, and there is no cycle: every object is deleted, the
-- fuel being as many steps as there are references.
pub release_all-Falling :
    (rank : Ptr → ℕ) (bound fuel : ℕ) (rs : List (Option Ptr)) (g : Graph)
    → Counted g rs
    → Every (Falling rank) g
    → ((q : Ptr) → rank q < bound)
    → length rs + total g ≤ fuel
    → (g' : Graph) × (release_all fuel rs g ≡ some (ok g')) × ((p : Ptr) → count_at g' p ≡ none)
release_all-Falling rank bound fuel rs g h falling below b =
    let (g', e, h', s) =
      release_all-Counted fuel rs [] g (subst (Counted g) (sym (append-nil rs)) h) b in
    let falling' = Every-Survives (Falling rank) g g' s falling in
    (
      g',
      e,
      λ p.
          h' p
          ∙ ap counted {y = 0}
              (omega (arith, unheld rank bound bound p g' h' falling' below (omega arith))),
    )
