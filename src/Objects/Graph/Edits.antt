-- ===== src/Objects/Graph/Edits.antt =====
-- Counting a reference more, writing a field, and making an object.
use kaya_basic.Base.{
  ℕ, suc, ◌+◌, ◌<◌, ◌≢◌, ◌≡◌, refl, sym, ap, ◌∙◌, arith, ℕ_discrete, true, false, Option, none,
  some, List, ◌∷◌, ◌==◌, if◌then◌else◌, length, get_elem?, set, length-set, ok,
}
use kaya_basic.Cpp.Int.{ℤ, pos, ◌+ℤ◌, pos-add-pos}
use kaya_basic.Objects.{Ptr}
use kaya_basic.Objects.Counted.{counted}
use kaya_basic.Objects.Graph.{Cell, Graph, added, add}
use kaya_basic.Objects.Graph.Counts.{
  count_at, fields_of, fields_at, refs_in-set, count_at-set, fields_at-set, Counted,
}
use kaya_basic.Objects.Graph.Cascade.{refs, cell_found}

pub add-found :
    (q : Ptr) (g : Graph) (c : Cell) (n : ℕ)
    → get_elem? g q ≡ some (some c)
    → c.count ≡ pos n
    → add (some q) g ≡ ok (set g q (some (record c { count = pos (suc n) })))
unfolding add
add-found q g c n e k =
    let more : c.count +ℤ pos 1 ≡ pos (suc n) =
      ap (λ z. z +ℤ pos 1) k ∙ pos-add-pos n 1 ∙ ap pos (omega arith) in
    ap (added q g) e ∙ ap (λ z. ok (set g q (some (record c { count = z })))) more

counted_more :
    (p q : Ptr) (o : Option ℤ) (s n : ℕ)
    → ((p ≢ q) → o ≡ counted s)
    → (p ≡ q → s ≡ n)
    → (if p == q then some (pos (suc n)) else o) ≡ counted ((if p == q then 1 else 0) + s)
counted_more p q o s n h same = elim (ℕ_discrete p q) [
  | yes here ↦ ground (arith, same here)
  | no other ↦ ground (arith, h other)
]

-- A count of `n` becomes one of `n + 1`, and there is a reference more.
pub counted_up :
    (g : Graph) (p : Ptr) (c : Cell) (n : ℕ) (rs : List (Option Ptr))
    → get_elem? g p ≡ some (some c)
    → refs p rs g ≡ n
    → ((q : Ptr) → (p ≢ q) → count_at g q ≡ counted (refs q rs g))
    → Counted (set g p (some (record c { count = pos (suc n) }))) (some p ∷ rs)
counted_up g p c n rs e k h q =
    let c' : Cell = record c { count = pos (suc n) } in
    let kept : refs q (some p ∷ rs) (set g p (some c')) ≡ (if p == q then 1 else 0) + refs q rs g =
      omega (arith, refs_in-set q g p (some c) (some c') e) in
    count_at-set g p (some c) (some c') q e
    ∙ counted_more p q (count_at g q) (refs q rs g) n (h q)
        (λ here. ap (λ q. refs q rs g) (sym here) ∙ k)
    ∙ ap counted (sym kept)

-- The fields of the objects stay as they are.
abbrev pub SameFields : Graph → Graph → Type 0
SameFields g g' = (p : Ptr) → fields_at g' p ≡ fields_at g p

pub fields_kept :
    (g : Graph) (p q : Ptr) (c : Cell) (z : ℤ)
    → get_elem? g p ≡ some (some c)
    → fields_at (set g p (some (record c { count = z }))) q ≡ fields_at g q
fields_kept g p q c z e =
    fields_at-set g p (some c) (some (record c { count = z })) q e ∙ elim (ℕ_discrete p q) [
      | yes here ↦
          let t : (p == q) ≡ true = ground arith in
          rw t (sym (ap fields_of e) ∙ ap (fields_at g) here)
      | no other ↦ let f : (p == q) ≡ false = ground arith in rw f refl
    ]

-- A reference that is counted somewhere is counted once more.
pub add-Counted :
    (x : Option Ptr) (rs : List (Option Ptr)) (g : Graph)
    → Counted g rs
    → ((p : Ptr) → x ≡ some p → 0 < refs p rs g)
    → (g' : Graph) × (add x g ≡ ok g')
      × Counted g' (x ∷ rs)
      × SameFields g g'
      × (length g' ≡ length g)
add-Counted none rs g h some_ref = (g, unfold add in refl, h, λ p. refl, refl)
add-Counted (some p) rs g h some_ref =
    let alive : count_at g p ≡ some (pos (refs p rs g)) = h p ∙ ground (arith, some_ref p refl) in
    let (c, e, k) = cell_found (get_elem? g p) (pos (refs p rs g)) alive in
    (
      set g p (some (record c { count = pos (suc (refs p rs g)) })),
      add-found p g c (refs p rs g) e k,
      counted_up g p c (refs p rs g) rs e refl (λ q other. h q),
      λ q. fields_kept g p q c (pos (suc (refs p rs g))) e,
      length-set g p (some (record c { count = pos (suc (refs p rs g)) })),
    )
