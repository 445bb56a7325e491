-- ===== src/Objects/Graph/Makes.antt =====
-- Making an object, with its first reference.
use kaya_basic.Base.{
  ℕ, zero, suc, ◌+◌, ◌≢◌, ◌≡◌, refl, sym, ap, subst, ◌∙◌, arith, ℕ_discrete, Option, none, some,
  List, [], ◌∷◌, ◌++◌, length, get_elem?, set, replicate, ok,
}
use mathlib.Core.Option.{none-ne-some, some-injective}
use kaya_basic.Cpp.Int.{pos}
use kaya_basic.Objects.{Ptr}
use kaya_basic.Objects.Counted.{refs_to, counted}
use kaya_basic.Objects.Graph.{Cell, Graph, add}
use kaya_basic.Objects.Graph.Counts.{refs_of, refs_in, count_of, fields_of, fields_at, Counted}
use kaya_basic.Objects.Graph.Cascade.{refs}
use kaya_basic.Objects.Graph.Edits.{add-found, counted_up, fields_kept}
use kaya_basic.Objects.Graph.Writes.{Every, Every-SameFields}

at_end : (g : Graph) (c : Option Cell) → get_elem? (g ++ c ∷ []) (length g) ≡ some c
at_end [] c = refl
at_end (d ∷ g) c = at_end g c

not_end :
    (g : Graph) (c : Option Cell) (q : Ptr)
    → length g ≢ q
    → get_elem? (g ++ c ∷ []) q ≡ get_elem? g q
not_end [] c zero ne = absurd (ne refl)
not_end [] c (suc q) ne = refl
not_end (d ∷ g) c zero ne = refl
not_end (d ∷ g) c (suc q) ne = not_end g c q (λ e. ne (ap suc e))

beyond : (g : Graph) → get_elem? g (length g) ≡ none
beyond [] = refl
beyond (d ∷ g) = beyond g

refs_in-end :
    (q : Ptr) (g : Graph) (c : Option Cell) → refs_in q (g ++ c ∷ []) ≡ refs_in q g + refs_of q c
refs_in-end q [] c = omega arith
refs_in-end q (d ∷ g) c = omega (arith, refs_in-end q g c)

refs_to-empty : (q : Ptr) (n : ℕ) → refs_to q (replicate n none) ≡ 0
refs_to-empty q zero = refl
refs_to-empty q (suc n) = refs_to-empty q n

counted-none : (n : ℕ) → none ≡ counted n → n ≡ 0
counted-none zero e = refl
counted-none (suc n) e = absurd (none-ne-some (pos (suc n)) e)

-- An object with `width` fields.
abbrev pub blank : ℕ → Cell
blank width = record { count = pos 0; fields = replicate width none }

pub made-Counted :
    (width : ℕ) (rs : List (Option Ptr)) (g : Graph) (P : Ptr → List (Option Ptr) → Type 0)
    → Counted g rs
    → Every P g
    → P (length g) (replicate width none)
    → (g' : Graph) × (add (some (length g)) (g ++ some (blank width) ∷ []) ≡ ok g')
      × Counted g' (some (length g) ∷ rs)
      × Every P g'
made-Counted width rs g P h w new =
    let p = length g in
    let c = blank width in
    let g0 = g ++ some c ∷ [] in
    let first : refs p rs g ≡ 0 = counted-none (refs p rs g) (ap count_of (sym (beyond g)) ∙ h p) in
    let same : (q : Ptr) → refs q rs g0 ≡ refs q rs g =
      λ q. omega (arith, refs_in-end q g (some c), refs_to-empty q width) in
    (
      set g0 p (some (record c { count = pos 1 })),
      add-found p g0 c 0 (at_end g (some c)) refl,
      counted_up g0 p c 0 rs (at_end g (some c)) (same p ∙ first)
          (λ q other. ap count_of (not_end g (some c) q other) ∙ h q ∙ ap counted (sym (same q))),
      Every-SameFields P g0 _ (λ q. fields_kept g0 p q c (pos 1) (at_end g (some c))) every,
    )
  where
    every : Every P (g ++ some (blank width) ∷ [])
    every q fs e = elim (ℕ_discrete (length g) q) [
      | yes here ↦
          subst (λ q. P q fs) here
            (subst (P (length g))
              (some-injective _ _ (
                sym (ap fields_of (at_end g (some (blank width))))
                ∙ ap (fields_at (g ++ some (blank width) ∷ [])) here
                ∙ e))
              new)
      | no other ↦ w q fs (ap fields_of (sym (not_end g (some (blank width)) q other)) ∙ e)
    ]
