-- ===== src/Objects/Graph/Programs/Laws.antt =====
-- A program with objects that refer to each other touches no object after it is deleted.
use kaya_basic.Base.{
  ℕ, zero, suc, ◌<◌, ◌≡◌, refl, sym, ap, subst, ◌∙◌, ◌⊎◌, arith, inl, inr, Option, none, some, List,
  [], ◌∷◌, length, get_elem?, set, length-set, replicate, Outcome, ok, throws,
}
use kaya_basic.Objects.{Ptr}
use kaya_basic.Objects.Counted.{refs_to, refs_to-get_elem?}
use kaya_basic.Objects.Graph.{Graph}
use kaya_basic.Objects.Graph.Cascade.{refs, release-Counted}
use kaya_basic.Objects.Graph.Edits.{add-Counted}
use kaya_basic.Objects.Graph.Writes.{Every-SameFields, Every-Survives}
use kaya_basic.Objects.Graph.Makes.{made-Counted}
use kaya_basic.Objects.Graph.Programs.{
  World, Event, declare, create, leave, copy, assign, load, store, null_access, run_one, run,
  InScope, AllInScope,
}
use kaya_basic.Objects.Graph.Programs.Fields.{
  Wide, IsSound, known-some, held, refs_of-refs_in, assign_all, store_all, field_found, holds_old,
}

-- The program goes on, with `m` variables, or stops with the error of an access through a null
-- reference.
abbrev pub Continues : ℕ → Outcome World → ℕ → Type 0
Continues width o m = ((w' : World) × (o ≡ ok w') × IsSound width w' m) ⊎ (o ≡ throws null_access)

load_one :
    (width i f : ℕ) (w : World) (n : ℕ) (r : Option Ptr)
    → get_elem? w.vars i ≡ some r
    → f < width
    → IsSound width w n
    → Continues width (run_one width (load i f) w) (suc n)
unfolding run_one
load_one width i f w n none e b s = inr (rw e refl)
load_one width i f w n (some p) e b s =
    let (c, x, at_p, at_f, found) =
      field_found width p f w n (ground (arith, refs_to-get_elem? p w.vars i e)) b s in
    let has : (q : Ptr) → x ≡ some q → 0 < refs q w.vars w.graph = λ q here. ground (
      arith,
      refs_of-refs_in q p w.graph c at_p,
      refs_to-get_elem? q c.fields f (at_f ∙ ap some here),
    ) in
    let (g', e', counts, same, l) = add-Counted x w.vars w.graph s.refs has in
    inl (
      record { vars = x ∷ w.vars; graph = g' },
      rw (e, found, e') refl,
      record {
        size = omega (arith, s.size);
        refs = counts;
        wide = Every-SameFields (Wide width) w.graph g' same s.wide;
      },
    )

store_one :
    (width i f j : ℕ) (w : World) (n : ℕ) (r x : Option Ptr)
    → get_elem? w.vars i ≡ some r
    → get_elem? w.vars j ≡ some x
    → f < width
    → IsSound width w n
    → Continues width (run_one width (store i f j) w) n
unfolding run_one
store_one width i f j w n none x e ej b s = inr (rw (e, ej) refl)
store_one width i f j w n (some p) x e ej b s =
    let some_ref : 0 < refs_to p w.vars = ground (arith, refs_to-get_elem? p w.vars i e) in
    let (c, old, at_p, at_f, found) = field_found width p f w n some_ref b s in
    let (g', e', counts, holding) =
      store_all width p f w.vars old x w.graph some_ref s.refs
        (holds_old width p f w n c old at_p at_f s) (λ q here. held w j x q ej here) in
    inl (
      record w { graph = g' },
      rw (e, ej, found, e') refl,
      record { size = s.size; refs = counts; wide = λ q fs h. (holding q fs h).0 },
    )

blank_length : (n : ℕ) → length (replicate {A = Option Ptr} n none) ≡ n
blank_length zero = refl
blank_length (suc n) = ap suc (blank_length n)

create_one :
    (width : ℕ) (w : World) (n : ℕ)
    → IsSound width w n
    → Continues width (run_one width create w) (suc n)
unfolding run_one
create_one width w n s =
    let (g', e, counts, wide) =
      made-Counted width w.vars w.graph (Wide width) s.refs s.wide (blank_length width) in
    inl (
      record { vars = some (length w.graph) ∷ w.vars; graph = g' },
      rw e refl,
      record { size = omega (arith, s.size); refs = counts; wide = wide },
    )

copy_one :
    (width i : ℕ) (w : World) (n : ℕ) (x : Option Ptr)
    → get_elem? w.vars i ≡ some x
    → IsSound width w n
    → Continues width (run_one width (copy i) w) (suc n)
unfolding run_one
copy_one width i w n x e s =
    let (g', e', counts, same, l) = add-Counted x w.vars w.graph s.refs (λ p. held w i x p e) in
    inl (
      record { vars = x ∷ w.vars; graph = g' },
      rw (e, e') refl,
      record {
        size = omega (arith, s.size);
        refs = counts;
        wide = Every-SameFields (Wide width) w.graph g' same s.wide;
      },
    )

assign_one :
    (width i j : ℕ) (w : World) (n : ℕ) (old x : Option Ptr)
    → get_elem? w.vars i ≡ some old
    → get_elem? w.vars j ≡ some x
    → IsSound width w n
    → Continues width (run_one width (assign i j) w) n
unfolding run_one
assign_one width i j w n old x e e' s =
    let (g', done, counts, wide) =
      assign_all (Wide width) w.vars i old x w.graph e s.refs s.wide (λ p. held w j x p e') in
    inl (
      record { vars = set w.vars i x; graph = g' },
      rw (e, e', done) refl,
      record { size = length-set w.vars i x ∙ s.size; refs = counts; wide = wide },
    )

leave_one :
    (width : ℕ) (vs : List (Option Ptr)) (g : Graph) (n m : ℕ)
    → suc m ≡ n
    → IsSound width (record { vars = vs; graph = g }) n
    → Continues width (run_one width leave (record { vars = vs; graph = g })) m
unfolding run_one
leave_one width [] g n m k s = absurd (omega (arith, s.size))
leave_one width (r ∷ vs) g n m k s =
    let (g', e, counts, kept) = release-Counted r vs g s.refs in
    inl (
      record { vars = vs; graph = g' },
      rw e refl,
      record {
        size = omega (arith, s.size);
        refs = counts;
        wide = Every-Survives (Wide width) g g' kept s.wide;
      },
    )

run_one-IsSound :
    (width : ℕ) (e : Event) (w : World) (n m : ℕ)
    → InScope width e n m
    → IsSound width w n
    → Continues width (run_one width e w) m
run_one-IsSound width declare w n m k s = inl (
  record w { vars = none ∷ w.vars },
  unfold run_one in refl,
  record { size = omega (arith, s.size); refs = s.refs; wide = s.wide },
)
run_one-IsSound width create w n m k s = subst (Continues width _) (sym k) (create_one width w n s)
run_one-IsSound width (copy i) w n m (i_in, k) s =
    let (x, e) = known-some w.vars i (omega (arith, s.size)) in
    subst (Continues width _) (sym k) (copy_one width i w n x e s)
run_one-IsSound width (assign i j) w n m (i_in, j_in, k) s =
    let (old, e) = known-some w.vars i (omega (arith, s.size)) in
    let (x, e') = known-some w.vars j (omega (arith, s.size)) in
    subst (Continues width _) (sym k) (assign_one width i j w n old x e e' s)
run_one-IsSound width (load i f) w n m (i_in, f_in, k) s =
    let (r, e) = known-some w.vars i (omega (arith, s.size)) in
    subst (Continues width _) (sym k) (load_one width i f w n r e f_in s)
run_one-IsSound width (store i f j) w n m (i_in, f_in, j_in, k) s =
    let (r, e) = known-some w.vars i (omega (arith, s.size)) in
    let (x, e') = known-some w.vars j (omega (arith, s.size)) in
    subst (Continues width _) (sym k) (store_one width i f j w n r x e e' f_in s)
run_one-IsSound width leave w n m k s = leave_one width w.vars w.graph n m k s

-- In a debug build, a program with objects of `width` fields, which uses the variables in scope and
-- the fields that there are only, ends with a result, or with the error of an access through a null
-- reference, and touches no object after it is deleted. In the end each count is the number of
-- references to the object, from variables and from fields, and an object without one was deleted.
pub run-Continues :
    (width : ℕ) (es : List Event) (w : World) (n m : ℕ)
    → AllInScope width es n m
    → IsSound width w n
    → Continues width (run width es w) m
unfolding run
run-Continues width [] w n m k s = inl (w, refl, subst (IsSound width w) (sym k) s)
run-Continues width (e ∷ es) w n m (k, now, later) s = elim (run_one-IsSound width e w n k now s) [
  | inr null ↦ inr (rw null refl)
  | inl (w1, e1, s1) ↦ elim (run-Continues width es w1 k m later s1) [
    | inr null ↦ inr (rw (e1, null) refl)
    | inl (w2, e2, s2) ↦ inl (w2, rw (e1, e2) refl, s2)
  ]
]
