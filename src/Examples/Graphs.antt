-- ===== src/Examples/Graphs.antt =====
-- Objects that refer to each other, at concrete runs.
use kaya_basic.Base.{
  ℕ, zero, suc, subst, ◌≡◌, ◌<◌, refl, arith, false, none, some, List, [], ◌∷◌, ◌==◌, if◌then◌else◌,
  ok,
}
use kaya_basic.Conversions.{variant_of_ref, ref_of_variant}
use kaya_basic.Conversions.Laws.{ref_of_variant-variant_of_ref}
use kaya_basic.Examples.Strings.{whole}
use mathlib.Core.Option.{none-ne-some, some-injective}
use kaya_basic.Cpp.Int.{pos, ◌+ℤ◌, ◌-ℤ◌}
use kaya_basic.Objects.{Ptr, Heap}
use kaya_basic.Objects.Counted.{refs_to, Counted}
use kaya_basic.Objects.Graph.{Graph, add, release, release_one, release_all, total}
use kaya_basic.Objects.Graph.Counts.{count_at, fields_at}
use kaya_basic.Objects.Graph.Counts
use kaya_basic.Objects.Graph.Ranked.{Falling, release_all-Falling}
use kaya_basic.Objects.Graph.Writes.{Every}
use kaya_basic.Objects.Graph.Programs.{
  World, Event, create, leave, load, store, run, run_one, assign_to, field, write_field, AllInScope,
}
use kaya_basic.Objects.Graph.Programs.Laws.{Continues, run-Continues}
use kaya_basic.Objects.Graph.Programs.Fields.{IsSound}

abbrev nothing : World
nothing = record { vars = []; graph = [] }

nothing-IsSound : IsSound 1 nothing 0
nothing-IsSound = record { size = refl; refs = λ p. refl; wide = λ q fs e. ground (arith, e) }

-- Two objects, of which the first refers to the second; the variable of the second is left first,
-- and it is loaded from the first.
abbrev events : List Event
events = create ∷ create ∷ store 1 0 0 ∷ leave ∷ load 0 0 ∷ leave ∷ leave ∷ []

abbrev events_in_scope : AllInScope 1 events 0 0
events_in_scope = (
  1,
  refl,
  (
    2,
    refl,
    (
      2,
      (omega arith, omega arith, omega arith, refl),
      (1, refl, (2, (omega arith, omega arith, refl), (1, refl, (0, refl, refl)))),
    ),
  ),
)

run-Continues_example : Continues 1 (run 1 events nothing) 0
run-Continues_example = run-Continues 1 events nothing 0 0 events_in_scope nothing-IsSound

-- The object 1 refers to the object 0, and a variable to the object 1.
abbrev chain : Graph
chain =
    some (record { count = pos 1; fields = none ∷ [] })
    ∷ some (record { count = pos 1; fields = some 0 ∷ [] })
    ∷ []

chain_counted : Counts.Counted chain (some 1 ∷ [])
chain_counted zero = refl
chain_counted (suc zero) = refl
chain_counted (suc (suc p)) = ground arith

abbrev height : Ptr → ℕ
height p = if p == 1 then 1 else 0

low : (q : Ptr) → height q < 2
low q = ground arith

chain_falls : Every (Falling height) chain
chain_falls zero fs e p =
    subst (λ fs. 0 < refs_to p fs → height p < 0) (some-injective _ _ e) (λ h. absurd (omega arith))
chain_falls (suc zero) fs e p =
    subst (λ fs. 0 < refs_to p fs → height p < 1) (some-injective _ _ e) (λ h. ground arith)
chain_falls (suc (suc q)) fs e p = absurd (none-ne-some fs e)

release_all-Falling_example :
    (g' : Graph) × (release_all 3 (some 1 ∷ []) chain ≡ some (ok g'))
    × ((p : Ptr) → count_at g' p ≡ none)
release_all-Falling_example =
    release_all-Falling height 2 3 (some 1 ∷ []) chain chain_counted chain_falls low
      (unfold total in omega arith)

-- An object that refers to itself stays when its variable is left.
cycle_stays :
    run 1 (create ∷ store 0 0 0 ∷ leave ∷ []) nothing
    ≡ ok (record { vars = []; graph = some (record { count = pos 1; fields = some 0 ∷ [] }) ∷ [] })
unfolding run run_one assign_to field write_field add release release_all release_one total ◌+ℤ◌
    ◌-ℤ◌
cycle_stays = refl

-- One object with one reference.
abbrev store_of_one : Heap
store_of_one = record {
  refcnt = λ p. if p == 0 then some (pos 1) else none;
  deleted = [];
  next = 1;
}

store_of_one_counted : Counted store_of_one (some 0 ∷ [])
store_of_one_counted zero = record { alive = refl; once = refl; made = λ ne. omega arith }
store_of_one_counted (suc p) = record {
  alive = ground arith;
  once = ground arith;
  made = λ ne. absurd (ne (ground arith));
}

ref_of_variant-variant_of_ref_example :
    (h' : Heap) × (ref_of_variant whole
        (λ a. if a == 4096 then some 0 else none)
        (variant_of_ref whole (λ p. 4096) (record { ptr = some 0; me = false }))
        store_of_one
      ≡ ok (h', record { ptr = some 0; me = false }))
    × Counted h' (some 0 ∷ some 0 ∷ [])
ref_of_variant-variant_of_ref_example =
    ref_of_variant-variant_of_ref whole (λ p. 4096) (λ a. if a == 4096 then some 0 else none) 0
      false store_of_one (some 0 ∷ []) (ground arith) (omega arith) refl store_of_one_counted
      (ground arith)
