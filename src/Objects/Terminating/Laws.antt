-- ===== src/Objects/Terminating/Laws.antt =====
-- What a `Terminate` may do with references, and what it may not.
use kaya_basic.Base.{
  ℕ, zero, suc, ◌≢◌, ◌≡◌, refl, sym, ap, ◌∙◌, fun_ext, arith, ℕ_discrete, true, false, Option, none,
  some, List, [], ◌∷◌, ◌==◌, All, Outcome, ok,
}
use kaya_basic.Cpp.Int.{pos-add-pos, ℤ, pos, ◌+ℤ◌, ◌-ℤ◌}
use kaya_basic.Objects.{Ptr, Heap, put_count, addref, release}
use kaya_basic.Objects.Terminating.{
  Act, pass, keep, then_do, run_acts, counting, gone, release_with,
}

addref-counting :
    (p : Ptr) (n : ℕ) (h : Heap)
    → h.refcnt p ≡ some (pos n)
    → addref (some p) h ≡ ok (counting p (pos (suc n)) h)
unfolding addref
addref-counting p n h e =
    let more : pos n +ℤ pos 1 ≡ pos (suc n) = pos-add-pos n 1 ∙ ap pos (omega arith) in
    rw (addref, e) (ap (λ z. ok (counting p z h)) more)

counting_here : (p : Ptr) (n : ℕ) (h : Heap) → (counting p (pos n) h).refcnt p ≡ some (pos n)
counting_here p n h = ground arith

module _ (release : Option Ptr → Heap → Option (Outcome Heap)) (q : Ptr) (acts : List Act)
    (h h1 : Heap) where
  pass_endless :
      addref (some q) h ≡ ok h1
      → release (some q) h1 ≡ none
      → run_acts release (pass q ∷ acts) h ≡ none
  unfolding run_acts
  pass_endless e e' = rw (e, e') refl

  pass_on :
      (h2 : Heap)
      → addref (some q) h ≡ ok h1
      → release (some q) h1 ≡ some (ok h2)
      → run_acts release (pass q ∷ acts) h ≡ run_acts release acts h2
  unfolding run_acts
  pass_on h2 e e' = rw (e, e') refl

module _ (acts : Ptr → List Act) where
  last :
      (fuel : ℕ) (p : Ptr) (h : Heap)
      → h.refcnt p ≡ some (pos 1)
      → release_with acts (suc fuel) (some p) h
        ≡ then_do
            (run_acts (release_with acts fuel) (acts p) (counting p (pos 0) h))
            (λ h'. some (ok (gone p h')))
  unfolding release_with ◌-ℤ◌
  last fuel p h e = rw (release_with, e) refl

  not_last :
      (fuel : ℕ) (p : Ptr) (n : ℕ) (h : Heap)
      → h.refcnt p ≡ some (pos (suc (suc n)))
      → release_with acts (suc fuel) (some p) h ≡ some (ok (counting p (pos (suc n)) h))
  unfolding release_with ◌-ℤ◌
  not_last fuel p n h e = rw (release_with, e) (ground arith)

  -- A `Terminate` whose first act is to hand its own object on never ends, if the reference that is
  -- released is the last one: the copy of the reference is the last one again, and its release
  -- terminates the object again.
  pub release_with-endless :
      (rest : List Act) (p : Ptr) (h : Heap) (fuel : ℕ)
      → acts p ≡ pass p ∷ rest
      → h.refcnt p ≡ some (pos 1)
      → release_with acts fuel (some p) h ≡ none
  release_with-endless rest p h zero e k = unfold release_with in refl
  release_with-endless rest p h (suc fuel) e k =
      let h0 = counting p (pos 0) h in
      let h1 = counting p (pos 1) h0 in
      let again : release_with acts fuel (some p) h1 ≡ none =
        release_with-endless rest p h1 fuel e (counting_here p 1 h0) in
      let runs_on =
        pass_endless (release_with acts fuel) p rest h0 h1
          (addref-counting p 0 h0 (counting_here p 0 h)) again in
      last fuel p h k ∙ rw (e, runs_on) refl

-- What `Terminate` of `p` may do in a heap: it hands on other objects that are counted.
abbrev pub Harmless : Heap → Ptr → Act → Type 0
Harmless h p (pass q) = (q ≢ p) × (n : ℕ) × (h.refcnt q ≡ some (pos (suc n)))
Harmless h p (keep q) = ⊥

put_back :
    (q : Ptr) (v : Option ℤ) (m : Ptr → Option ℤ) (w : Option ℤ)
    → m q ≡ w
    → put_count (put_count m q v) q w ≡ m
put_back q v m w e = fun_ext (λ p. elim (ℕ_discrete p q) [
  | yes here ↦ let t : (p == q) ≡ true = ground arith in rw t (sym e ∙ ap m (sym here))
  | no other ↦ let f : (p == q) ≡ false = ground arith in rw f refl
])

put_over :
    (q : Ptr) (v w : Option ℤ) (m : Ptr → Option ℤ)
    → put_count (put_count m q v) q w ≡ put_count m q w
put_over q v w m = fun_ext (λ p. ground arith)

module _ (acts : Ptr → List Act) where
  run_acts-Harmless :
      (fuel : ℕ) (todo : List Act) (p : Ptr) (h : Heap)
      → All (Harmless h p) todo
      → run_acts (release_with acts (suc fuel)) todo h ≡ some (ok h)
  run_acts-Harmless fuel [] p h k = unfold run_acts in refl
  run_acts-Harmless fuel (keep q ∷ todo) p h (k, ks) = absurd k
  run_acts-Harmless fuel (pass q ∷ todo) p h ((ne, n, e), ks) =
      let h1 = counting q (pos (suc (suc n))) h in
      let back : counting q (pos (suc n)) h1 ≡ h =
        ap (λ m. record h { refcnt = m })
          (put_back q (some (pos (suc (suc n)))) h.refcnt (some (pos (suc n))) e) in
      pass_on (release_with acts (suc fuel)) q todo h h1 (counting q (pos (suc n)) h1)
        (addref-counting q (suc n) h e)
        (not_last acts fuel q n h1 (counting_here q (suc (suc n)) h))
      ∙ ap (run_acts (release_with acts (suc fuel)) todo) back
      ∙ run_acts-Harmless fuel todo p h ks

  still :
      (p : Ptr) (h : Heap) (todo : List Act)
      → All (Harmless h p) todo
      → All (Harmless (counting p (pos 0) h) p) todo
  still p h [] ks = ks
  still p h (keep q ∷ todo) (k, ks) = absurd k
  still p h (pass q ∷ todo) ((ne, n, e), ks) = ((ne, n, ground (arith, e)), still p h todo ks)

  -- A `Terminate` that hands on only other objects, which are counted, ends, and the release is
  -- then as with the empty `Terminate`.
  pub release_with-Harmless :
      (p : Ptr) (h : Heap) (fuel : ℕ)
      → h.refcnt p ≡ some (pos 1)
      → All (Harmless h p) (acts p)
      → (h' : Heap) × (release_with acts (suc (suc fuel)) (some p) h ≡ some (ok h'))
        × (release (some p) h ≡ ok (h', none))
  unfolding release
  release_with-Harmless p h fuel e ks =
      let h0 = counting p (pos 0) h in
      let ran = run_acts-Harmless fuel (acts p) p h0 (still p h (acts p) ks) in
      let deleted : gone p h0 ≡ gone p h =
        ap (λ m. record h { refcnt = m; deleted = p ∷ h.deleted })
          (put_over p (some (pos 0)) none h.refcnt) in
      (
        gone p h,
        last acts (suc fuel) p h e ∙ rw ran (ap (λ g. some (ok g)) deleted),
        unfold ◌-ℤ◌ in rw (release, e) refl,
      )
