-- ===== src/Objects/Scopes.antt =====
-- References as a program uses them: variables are declared, copied, assigned and left, and no
-- object is used after it is deleted.
pub mod Laws
use kaya_basic.Base.{
  ℕ, suc, ◌<◌, ◌≡◌, false, Option, none, some, List, [], ◌∷◌, get_elem?, set, Outcome, ok,
  undefined, ◌>>=◌,
}
use kaya_basic.Objects.{Ptr, Heap, Ref, new_object, null_ref, copy_ref, ref_of, destroy, assign_ref}

-- The variables in scope, the last declared first, as what their `ptr` is; `me` is off in each.
pub record Scope : Type 0 where
  pub vars : List (Option Ptr)
  pub heap : Heap

abbrev pub variable : Option Ptr → Ref
variable p = record { ptr = p; me = false }

-- What a program does with references.
pub data Event : Type 0 where
  declare create leave : Event
  copy : ℕ → Event
  assign : ℕ → ℕ → Event

unfoldable pub var : List (Option Ptr) → ℕ → Outcome (Option Ptr)
var vs i = elim (get_elem? vs i) [ some p ↦ ok p | none ↦ undefined ]

unfoldable pub run_one : Event → Scope → Outcome Scope
run_one declare s = ok (record s { vars = null_ref.ptr ∷ s.vars })
run_one create s = do
  let (h1, p) = new_object s.heap
  (h2, r) ← ref_of (some p) false h1
  ok (record { vars = r.ptr ∷ s.vars; heap = h2 })
run_one (copy i) s = do
  x ← var s.vars i
  (h', r) ← copy_ref (variable x) s.heap
  ok (record { vars = r.ptr ∷ s.vars; heap = h' })
run_one (assign i j) s = do
  r ← var s.vars i
  x ← var s.vars j
  (h', r') ← assign_ref (variable r) (variable x) s.heap
  ok (record { vars = set s.vars i r'.ptr; heap = h' })
run_one leave s = elim s.vars [
  | [] ↦ undefined
  | r ∷ vs ↦ do h' ← destroy (variable r) s.heap; ok (record { vars = vs; heap = h' })
]

unfoldable pub run : List Event → Scope → Outcome Scope
unfolding run_one
run [] s = ok s
run (e ∷ es) s = do s' ← run_one e s; run es s'

-- With `n` variables in scope, the event names such variables only, and `m` are in scope after it.
abbrev pub InScope : Event → ℕ → ℕ → Type 0
InScope declare n m = m ≡ suc n
InScope create n m = m ≡ suc n
InScope (copy i) n m = (i < n) × (m ≡ suc n)
InScope (assign i j) n m = (i < n) × (j < n) × (m ≡ n)
InScope leave n m = suc m ≡ n

abbrev pub AllInScope : List Event → ℕ → ℕ → Type 0
AllInScope [] n m = m ≡ n
AllInScope (e ∷ es) n m = (k : ℕ) × InScope e n k × AllInScope es k m

abbrev pub start : Scope
start = record { vars = []; heap = record { refcnt = λ p. none; deleted = []; next = 0 } }
