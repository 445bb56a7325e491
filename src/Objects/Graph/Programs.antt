-- ===== src/Objects/Graph/Programs.antt =====
-- Programs whose variables and objects refer to objects.
pub mod Fields
pub mod Laws
use kaya_basic.Base.{
  ℕ, zero, suc, ◌<◌, ◌≡◌, Option, none, some, List, [], ◌∷◌, ◌++◌, length, get_elem?, set,
  replicate, codes, Exception, text, Outcome, ok, throws, undefined, ◌>>=◌,
}
use kaya_basic.Cpp.Int.{pos}
use kaya_basic.Objects.{Ptr}
use kaya_basic.Objects.Graph.{Cell, Graph, add, release}

-- The variables in scope, the last declared first, and the objects.
pub record World : Type 0 where
  pub vars : List (Option Ptr)
  pub graph : Graph

-- What a program does: `load i f` declares a variable with the reference in a field of the object
-- of variable `i`, and `store i f j` assigns variable `j` to the field.
pub data Event : Type 0 where
  declare create leave : Event
  copy : ℕ → Event
  assign : ℕ → ℕ → Event
  load : ℕ → ℕ → Event
  store : ℕ → ℕ → ℕ → Event

abbrev pub known {ℓ} : {A : Type ℓ} → Option A → Outcome A
known none = undefined
known (some x) = ok x

-- `operator->` of a debug build.
abbrev pub null_access : Exception
null_access = text (codes "attempt to access class member through a null reference")

-- The check that `__BPP_DEBUG` compiles into `operator->`; the programs here are of a debug build.
abbrev pub pointed : Option Ptr → Outcome Ptr
pointed none = throws null_access
pointed (some p) = ok p

abbrev pub there : Option (Option Cell) → Outcome Cell
there (some (some c)) = ok c
there _ = undefined

-- A field of an object is read, and written.
unfoldable pub field : Ptr → ℕ → Graph → Outcome (Option Ptr)
field p f g = do c ← there (get_elem? g p); known (get_elem? c.fields f)

unfoldable pub write_field : Ptr → ℕ → Option Ptr → Graph → Outcome Graph
write_field p f x g = do
  c ← there (get_elem? g p)
  ok (set g p (some (record c { fields = set c.fields f x })))

-- `r = x`, where `put` is the write to `ptr` of `r`: the argument is a copy of `x`, the old
-- reference is released, the new one is written and counted, and the copy is destroyed. The old
-- pointer stays in `ptr` meanwhile, and is not read.
unfoldable pub assign_to :
    (Option Ptr → Graph → Outcome Graph) → Option Ptr → Option Ptr → Graph → Outcome Graph
assign_to put old x g = do
  g1 ← add x g
  g2 ← put none g1
  g3 ← release old g2
  g4 ← add x g3
  g5 ← put x g4
  release x g5

-- Each object has so many fields that are references.
module _ (width : ℕ) where
  unfoldable pub run_one : Event → World → Outcome World
  unfolding assign_to
  run_one declare w = ok (record w { vars = none ∷ w.vars })
  run_one create w = do
    let p = length w.graph
    let made = some (record { count = pos 0; fields = replicate width none }) ∷ []
    g ← add (some p) (w.graph ++ made)
    ok (record { vars = some p ∷ w.vars; graph = g })
  run_one (copy i) w = do
    x ← known (get_elem? w.vars i)
    g ← add x w.graph
    ok (record { vars = x ∷ w.vars; graph = g })
  run_one (assign i j) w = do
    old ← known (get_elem? w.vars i)
    x ← known (get_elem? w.vars j)
    g ← assign_to (λ v h. ok h) old x w.graph
    ok (record { vars = set w.vars i x; graph = g })
  run_one (load i f) w = do
    r ← known (get_elem? w.vars i)
    p ← pointed r
    x ← field p f w.graph
    g ← add x w.graph
    ok (record { vars = x ∷ w.vars; graph = g })
  run_one (store i f j) w = do
    r ← known (get_elem? w.vars i)
    x ← known (get_elem? w.vars j)
    p ← pointed r
    old ← field p f w.graph
    g ← assign_to (λ v h. write_field p f v h) old x w.graph
    ok (record w { graph = g })
  run_one leave w = elim w.vars [
    | [] ↦ undefined
    | r ∷ vs ↦ do g ← release r w.graph; ok (record { vars = vs; graph = g })
  ]

  unfoldable pub run : List Event → World → Outcome World
  unfolding run_one
  run [] w = ok w
  run (e ∷ es) w = do w' ← run_one e w; run es w'

  -- With `n` variables in scope, the event names such variables and the fields there are only, and
  -- `m` are in scope after it.
  abbrev pub InScope : Event → ℕ → ℕ → Type 0
  InScope declare n m = m ≡ suc n
  InScope create n m = m ≡ suc n
  InScope (copy i) n m = (i < n) × (m ≡ suc n)
  InScope (assign i j) n m = (i < n) × (j < n) × (m ≡ n)
  InScope (load i f) n m = (i < n) × (f < width) × (m ≡ suc n)
  InScope (store i f j) n m = (i < n) × (f < width) × (j < n) × (m ≡ n)
  InScope leave n m = suc m ≡ n

  abbrev pub AllInScope : List Event → ℕ → ℕ → Type 0
  AllInScope [] n m = m ≡ n
  AllInScope (e ∷ es) n m = (k : ℕ) × InScope e n k × AllInScope es k m
