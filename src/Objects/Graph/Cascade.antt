-- ===== src/Objects/Graph/Cascade.antt =====
-- A release goes on until no reference is left to release, touches no object that was deleted, and
-- leaves each count right.
use kaya_basic.Base.{
  ℕ, zero, suc, ◌+◌, ◌≤◌, ◌≡◌, refl, sym, ap, ◌∙◌, arith, ℕ_discrete, inl, inr, false, Option, none,
  some, List, [], ◌∷◌, ◌++◌, ◌==◌, if◌then◌else◌, length, get_elem?, set, length-append,
  append_assoc, ok,
}
use mathlib.Core.Option.{none-ne-some, some-injective}
use kaya_basic.Cpp.Int.{ℤ, pos, ◌-ℤ◌, eqb_ℤ, pos-sub-pos}
use kaya_basic.Objects.{Ptr}
use kaya_basic.Objects.Counted.{refs_to, counted}
use kaya_basic.Objects.Graph.{
  Cell, Graph, lowered, dropped, release_one, go_on, finished, release_all, release, total,
}
use kaya_basic.Objects.Graph.Counts.{
  refs_in, count_of, count_at, refs_to-append, refs_in-set, total-set, count_at-set, Survives,
  set-Survives, Counted,
}

pub cell_found :
    (o : Option (Option Cell)) (z : ℤ)
    → count_of o ≡ some z
    → (c : Cell) × (o ≡ some (some c)) × (c.count ≡ z)
cell_found none z e = absurd (none-ne-some z e)
cell_found (some none) z e = absurd (none-ne-some z e)
cell_found (some (some c)) z e = (c, refl, some-injective _ _ e)

-- What `release` does to an object with a count of `n + 1`.
release_one-found :
    (p : Ptr) (g : Graph) (c : Cell) (n : ℕ)
    → get_elem? g p ≡ some (some c)
    → c.count ≡ pos (suc n)
    → release_one (some p) g ≡ ok (lowered p g c (pos n))
unfolding release_one
release_one-found p g c n e k =
    let less : c.count -ℤ pos 1 ≡ pos n =
      ap (λ z. z -ℤ pos 1) k ∙ pos-sub-pos (suc n) 1 (omega arith) ∙ ap pos (omega arith) in
    ap (dropped p g) e ∙ ap (λ z. ok (lowered p g c z)) less

last_at :
    (p q : Ptr) (o : Option ℤ) (s : ℕ)
    → o ≡ counted ((if p == q then 1 else 0) + s)
    → (p ≡ q → s ≡ 0)
    → (if p == q then none else o) ≡ counted s
last_at p q o s h same = elim (ℕ_discrete p q) [
  | yes here ↦ ground (arith, same here)
  | no other ↦ ground arith
]

left_at :
    (p q : Ptr) (o : Option ℤ) (s m : ℕ)
    → o ≡ counted ((if p == q then 1 else 0) + s)
    → (p ≡ q → s ≡ suc m)
    → (if p == q then some (pos (suc m)) else o) ≡ counted s
left_at p q o s m h same = elim (ℕ_discrete p q) [
  | yes here ↦ ground (arith, same here)
  | no other ↦ ground arith
]

-- How many references there are, in `rest` and in the fields.
abbrev pub refs : Ptr → List (Option Ptr) → Graph → ℕ
refs q rest g = refs_to q rest + refs_in q g

pub refs_cons :
    (p q : Ptr) (rest : List (Option Ptr)) (g : Graph)
    → refs q (some p ∷ rest) g ≡ (if p == q then 1 else 0) + refs q rest g
refs_cons p q rest g = omega arith

Counted-last :
    (g : Graph) (p : Ptr) (c : Cell) (rest : List (Option Ptr))
    → get_elem? g p ≡ some (some c)
    → refs p rest g ≡ 0
    → Counted g (some p ∷ rest)
    → Counted (set g p none) (c.fields ++ rest)
Counted-last g p c rest e none_left h q =
    let moved : refs q (c.fields ++ rest) (set g p none) ≡ refs q rest g =
      omega (arith, refs_to-append q c.fields rest, refs_in-set q g p (some c) none e) in
    count_at-set g p (some c) none q e
    ∙ last_at p q (count_at g q) (refs q rest g) (h q ∙ ap counted (refs_cons p q rest g))
        (λ here. ap (λ q. refs q rest g) (sym here) ∙ none_left)
    ∙ ap counted (sym moved)

Counted-left :
    (g : Graph) (p : Ptr) (c : Cell) (m : ℕ) (rest : List (Option Ptr))
    → get_elem? g p ≡ some (some c)
    → refs p rest g ≡ suc m
    → Counted g (some p ∷ rest)
    → Counted (set g p (some (record c { count = pos (suc m) }))) rest
Counted-left g p c m rest e some_left h q =
    let c' : Cell = record c { count = pos (suc m) } in
    let kept : refs q rest (set g p (some c')) ≡ refs q rest g =
      omega (arith, refs_in-set q g p (some c) (some c') e) in
    count_at-set g p (some c) (some c') q e
    ∙ left_at p q (count_at g q) (refs q rest g) m (h q ∙ ap counted (refs_cons p q rest g))
        (λ here. ap (λ q. refs q rest g) (sym here) ∙ some_left)
    ∙ ap counted (sym kept)

-- One reference is released: the fields of an object that goes are the next.
one_more :
    (p : Ptr) (rest : List (Option Ptr)) (g : Graph)
    → refs p (some p ∷ rest) g ≡ suc (refs p rest g)
one_more p rest g = ground arith

Counted-step :
    (g : Graph) (p : Ptr) (c : Cell) (n : ℕ) (rest : List (Option Ptr))
    → get_elem? g p ≡ some (some c)
    → c.count ≡ pos (suc n)
    → refs p rest g ≡ n
    → Counted g (some p ∷ rest)
    → (g' : Graph) × (fields : List (Option Ptr)) × (release_one (some p) g ≡ ok (g', fields))
      × Counted g' (fields ++ rest)
      × Survives g g'
      × (total g' + length fields ≡ total g)
Counted-step g p c zero rest e k n h = (
  set g p none,
  c.fields,
  release_one-found p g c 0 e k,
  Counted-last g p c rest e n h,
  set-Survives g p c none e (inl refl),
  omega (arith, total-set g p (some c) none e),
)
Counted-step g p c (suc m) rest e k n h =
    let c' : Cell = record c { count = pos (suc m) } in
    let some_left : eqb_ℤ (pos (suc m)) (pos 0) ≡ false = ground arith in
    (
      set g p (some c'),
      [],
      release_one-found p g c (suc m) e k ∙ rw some_left refl,
      Counted-left g p c m rest e n h,
      set-Survives g p c (some c') e (inr refl),
      omega (arith, total-set g p (some c) (some c') e),
    )

release_one-Counted :
    (g : Graph) (r : Option Ptr) (rest : List (Option Ptr))
    → Counted g (r ∷ rest)
    → (g' : Graph) × (fields : List (Option Ptr)) × (release_one r g ≡ ok (g', fields))
      × Counted g' (fields ++ rest)
      × Survives g g'
      × (total g' + length fields ≡ total g)
release_one-Counted g none rest h = (g, [], unfold release_one in refl, h, λ q fs e. e, omega arith)
release_one-Counted g (some p) rest h =
    let n = refs p rest g in
    let alive : count_at g p ≡ some (pos (suc n)) = h p ∙ ap counted (one_more p rest g) in
    let (c, e, k) = cell_found (get_elem? g p) (pos (suc n)) alive in
    Counted-step g p c n rest e k refl h

-- Every release that is due ends: as many steps as references are left, here and in the fields, are
-- enough.
pub release_all-Counted :
    (fuel : ℕ) (rs rest : List (Option Ptr)) (g : Graph)
    → Counted g (rs ++ rest)
    → length rs + total g ≤ fuel
    → (g' : Graph) × (release_all fuel rs g ≡ some (ok g')) × Counted g' rest × Survives g g'
unfolding release_all
release_all-Counted zero [] rest g h b = (g, refl, h, λ q fs e. e)
release_all-Counted zero (r ∷ rs) rest g h b = absurd (omega arith)
release_all-Counted (suc fuel) [] rest g h b = (g, refl, h, λ q fs e. e)
release_all-Counted (suc fuel) (r ∷ rs) rest g h b =
    let (g1, fields, e1, h1, s1, t) = release_one-Counted g r (rs ++ rest) h in
    let (g2, e2, h2, s2) =
      release_all-Counted fuel (fields ++ rs) rest g1 (rw (append_assoc fields rs rest) h1)
        (omega (arith, length-append fields rs)) in
    (
      g2,
      ap (go_on (λ fields g'. release_all fuel (fields ++ rs) g')) e1 ∙ e2,
      h2,
      λ q fs e. s1 q fs (s2 q fs e),
    )

pub release-Counted :
    (r : Option Ptr) (rest : List (Option Ptr)) (g : Graph)
    → Counted g (r ∷ rest)
    → (g' : Graph) × (release r g ≡ ok g') × Counted g' rest × Survives g g'
unfolding release
release-Counted r rest g h =
    let (g', e, h', s) = release_all-Counted (suc (total g)) (r ∷ []) rest g h (omega arith) in
    (g', ap finished e, h', s)
