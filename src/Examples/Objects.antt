-- ===== src/Examples/Objects.antt =====
-- References at concrete runs.
use kaya_basic.Base.{some, ◌==◌, ◌≡◌, refl, arith, List, [], ◌∷◌, none, ltb, if◌then◌else◌, ok}
use kaya_basic.Objects.Counted.{times_in}
use kaya_basic.Objects.{Heap, release}
use kaya_basic.Objects.Terminating.{pass, release_with}
use kaya_basic.Objects.Terminating.Laws.{release_with-endless, release_with-Harmless}
use kaya_basic.Cpp.Int.{pos}
use kaya_basic.Objects.Scopes.{Scope, Event, create, copy, assign, leave, run, AllInScope, start}
use kaya_basic.Objects.Scopes.Laws.{run-all_deleted}

-- Two objects; a second variable is made to refer to the first one, and all variables are left.
abbrev events : List Event
events = create ∷ create ∷ assign 0 1 ∷ copy 1 ∷ leave ∷ leave ∷ leave ∷ []

abbrev events_in_scope : AllInScope events 0 0
events_in_scope = (
  1,
  refl,
  (
    2,
    refl,
    (
      2,
      (omega arith, omega arith, refl),
      (3, (omega arith, refl), (2, refl, (1, refl, (0, refl, refl)))),
    ),
  ),
)

run-all_deleted_example :
    (s' : Scope) × (run events start ≡ ok s')
    × (s'.heap.refcnt 1 ≡ none)
    × (times_in 1 s'.heap.deleted ≡ (if ltb 1 s'.heap.next then 1 else 0))
run-all_deleted_example = run-all_deleted events 1 events_in_scope

-- The object 0 has one reference, and the object 1 two.
abbrev two_objects : Heap
two_objects = record {
  refcnt = λ p. if p == 0 then some (pos 1) else if p == 1 then some (pos 2) else none;
  deleted = [];
  next = 2;
}

release_with-endless_example : release_with (λ p. pass 0 ∷ []) 1000 (some 0) two_objects ≡ none
release_with-endless_example =
    release_with-endless (λ p. pass 0 ∷ []) [] 0 two_objects 1000 refl refl

release_with-Harmless_example :
    (h' : Heap) × (release_with (λ p. pass 1 ∷ pass 1 ∷ []) 2 (some 0) two_objects ≡ some (ok h'))
    × (release (some 0) two_objects ≡ ok (h', none))
release_with-Harmless_example =
    release_with-Harmless (λ p. pass 1 ∷ pass 1 ∷ []) 0 two_objects 0 refl
      ((ground arith, 1, refl), ((ground arith, 1, refl), tt))
