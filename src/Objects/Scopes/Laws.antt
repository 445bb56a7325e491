-- ===== src/Objects/Scopes/Laws.antt =====
-- A program that uses the variables in scope only touches no object after it is deleted, and
-- deletes every object.
use kaya_basic.Base.{
  ℕ, suc, ◌<◌, ◌≢◌, ◌≡◌, refl, sym, ap, ◌∙◌, arith, Option, Option-cases, none, some, inl, inr,
  List, [], ◌∷◌, ltb, if◌then◌else◌, length, length-set, get_elem?, get_elem?-none, set, ok,
}
use kaya_basic.Objects.{
  Ptr, Heap, new_object, addref, null_ref, copy_ref, ref_of, destroy, assign_ref,
}
use kaya_basic.Objects.Counted.{
  refs_to, ref_to, refs_to-cons, refs_to-set, refs_to-get_elem?, times_in, Counted, Counted-again,
  addref-Counted, release-Counted, new-Counted,
}
use kaya_basic.Objects.Scopes.{
  Scope, variable, Event, declare, create, leave, copy, assign, var, run_one, run, InScope,
  AllInScope, start,
}

-- A reference more, to what a variable refers to.
share :
    (h : Heap) (rs : List (Option Ptr)) (x : Option Ptr)
    → ((p : Ptr) → x ≡ some p → refs_to p rs ≢ 0)
    → Counted h rs
    → (h' : Heap) × (addref x h ≡ ok h') × Counted h' (x ∷ rs)
share h rs none has c = (h, unfold addref in refl, c)
share h rs (some p) has c = addref-Counted h rs p c (has p refl)

-- `r = x` on variables: in the end, the references without `r` and with one more to `x`.
reassign :
    (h : Heap) (rest : List (Option Ptr)) (r x : Option Ptr)
    → ((p : Ptr) → x ≡ some p → refs_to p (r ∷ rest) ≢ 0)
    → Counted h (r ∷ rest)
    → (h' : Heap) × (assign_ref (variable r) (variable x) h ≡ ok (h', variable x))
      × Counted h' (x ∷ rest)
unfolding assign_ref
reassign h rest r x has c =
    let (h1, e1, c1) = share h (r ∷ rest) x has c in
    let swapped = Counted-again h1 (x ∷ r ∷ rest) (r ∷ x ∷ rest) (λ p. swap p) c1 in
    let (h2, r', e2, c2) = release-Counted h1 (x ∷ rest) r swapped in
    let (h3, e3, c3) = share h2 (x ∷ rest) x in_front c2 in
    let (h4, x', e4, c4) = release-Counted h3 (x ∷ rest) x c3 in (h4, rw (e1, e2, e3, e4) refl, c4)
  where
    in_front : (p : Ptr) → x ≡ some p → refs_to p (x ∷ rest) ≢ 0
    in_front p e = ground (arith, refs_to-cons p x rest, ap (ref_to p) e)

    swap : (p : Ptr) → refs_to p (x ∷ r ∷ rest) ≡ refs_to p (r ∷ x ∷ rest)
    swap p = omega (
      arith,
      refs_to-cons p x (r ∷ rest),
      refs_to-cons p r rest,
      refs_to-cons p r (x ∷ rest),
      refs_to-cons p x rest,
    )

-- What holds of a scope with `n` variables.
pub record IsSound (s : Scope) (n : ℕ) : Type 0 where
  pub size : length s.vars ≡ n
  pub refs : Counted s.heap s.vars

var-some :
    (vs : List (Option Ptr)) (i : ℕ)
    → i < length vs
    → (x : Option Ptr) × (get_elem? vs i ≡ some x) × (var vs i ≡ ok x)
unfolding var
var-some vs i h = elim (Option-cases (get_elem? vs i)) [
  | inl e ↦ absurd (get_elem?-none vs i h e)
  | inr (x, e) ↦ (x, e, ground arith)
]

assigned :
    (h : Heap) (vs : List (Option Ptr)) (i j : ℕ) (r x : Option Ptr)
    → get_elem? vs i ≡ some r
    → get_elem? vs j ≡ some x
    → Counted h vs
    → (h' : Heap) × (assign_ref (variable r) (variable x) h ≡ ok (h', variable x))
      × Counted h' (set vs i x)
assigned h vs i j r x at_i at_j c =
    let rest = set vs i none in
    let (h', e, c') = reassign h rest r x has (Counted-again h vs (r ∷ rest) before c) in
    (h', e, Counted-again h' (x ∷ rest) (set vs i x) after c')
  where
    before : (p : Ptr) → refs_to p vs ≡ refs_to p (r ∷ set vs i none)
    before p = omega (arith, refs_to-set p vs i r x at_i, refs_to-cons p r (set vs i none))

    after : (p : Ptr) → refs_to p (x ∷ set vs i none) ≡ refs_to p (set vs i x)
    after p = omega (arith, refs_to-set p vs i r x at_i, refs_to-cons p x (set vs i none))

    has : (p : Ptr) → x ≡ some p → refs_to p (r ∷ set vs i none) ≢ 0
    has p e = rw (← before p) (refs_to-get_elem? p vs j (at_j ∙ ap some e))

left_scope :
    (vs : List (Option Ptr)) (h : Heap) (m : ℕ)
    → suc m ≡ length vs
    → Counted h vs
    → (s' : Scope) × (run_one leave (record { vars = vs; heap = h }) ≡ ok s') × IsSound s' m
unfolding run_one destroy
left_scope [] h m k c = absurd (omega arith)
left_scope (r ∷ vs) h m k c =
    let (h', r', e, c') = release-Counted h vs r c in
    (record { vars = vs; heap = h' }, rw e refl, record { size = omega arith; refs = c' })

run_one-IsSound :
    (e : Event) (s : Scope) (n m : ℕ)
    → InScope e n m
    → IsSound s n
    → (s' : Scope) × (run_one e s ≡ ok s') × IsSound s' m
unfolding run_one
run_one-IsSound declare s n m k c = (
  record s { vars = none ∷ s.vars },
  unfold null_ref in refl,
  record { size = omega (arith, c.size); refs = c.refs },
)
run_one-IsSound create s n m k c =
    let (h', e, c') = new-Counted s.heap s.vars c.refs in
    let p = (new_object s.heap).1 in
    (
      record { vars = some p ∷ s.vars; heap = h' },
      unfold ref_of in rw e refl,
      record { size = omega (arith, c.size); refs = c' },
    )
run_one-IsSound (copy i) s n m (i_in, k) c =
    let (x, e, e') = var-some s.vars i (omega (arith, c.size)) in
    let (h', e1, c') =
      share s.heap s.vars x (λ p here. refs_to-get_elem? p s.vars i (e ∙ ap some here)) c.refs in
    (
      record { vars = x ∷ s.vars; heap = h' },
      unfold copy_ref in rw (e', e1) refl,
      record { size = omega (arith, c.size); refs = c' },
    )
run_one-IsSound (assign i j) s n m (i_in, j_in, k) c =
    let (r, at_i, var_i) = var-some s.vars i (omega (arith, c.size)) in
    let (x, at_j, var_j) = var-some s.vars j (omega (arith, c.size)) in
    let (h', e, c') = assigned s.heap s.vars i j r x at_i at_j c.refs in
    (
      record { vars = set s.vars i x; heap = h' },
      rw (var_i, var_j, e) refl,
      record { size = omega (arith, length-set s.vars i x, c.size); refs = c' },
    )
run_one-IsSound leave s n m k c = left_scope s.vars s.heap m (omega (arith, c.size)) c.refs

-- A program that uses the variables in scope only runs with a defined result: no object is touched
-- after it is deleted. Each count is then the number of references to the object, an object without
-- one was deleted, and no object was deleted twice or with a reference left.
pub run-IsSound :
    (es : List Event) (s : Scope) (n m : ℕ)
    → AllInScope es n m
    → IsSound s n
    → (s' : Scope) × (run es s ≡ ok s') × IsSound s' m
unfolding run
run-IsSound [] s n m k c = (s, refl, record { size = c.size ∙ sym k; refs = c.refs })
run-IsSound (e ∷ es) s n m (k, now, later) c =
    let (s1, e1, c1) = run_one-IsSound e s n k now c in
    let (s2, e2, c2) = run-IsSound es s1 k m later c1 in (s2, rw (e1, e2) refl, c2)

pub start-IsSound : IsSound start 0
start-IsSound = record {
  size = refl;
  refs = λ p. record { alive = refl; once = ground arith; made = λ ne. absurd (ne refl) };
}

no_refs : (p : Ptr) (vs : List (Option Ptr)) → length vs ≡ 0 → refs_to p vs ≡ 0
no_refs p [] h = refl
no_refs p (v ∷ vs) h = absurd (omega arith)

-- A program that begins without variables and leaves every one it declares has deleted every object
-- that it made, each once.
pub run-all_deleted :
    (es : List Event) (p : Ptr)
    → AllInScope es 0 0
    → (s' : Scope) × (run es start ≡ ok s')
      × (s'.heap.refcnt p ≡ none)
      × (times_in p s'.heap.deleted ≡ (if ltb p s'.heap.next then 1 else 0))
run-all_deleted es p k =
    let (s', e, c) = run-IsSound es start 0 0 k start-IsSound in
    (
      s',
      e,
      ground (arith, c.size, no_refs p s'.vars, (c.refs p).alive),
      ground (arith, c.size, no_refs p s'.vars, (c.refs p).once),
    )
