-- ===== src/Objects/Counted.antt =====
-- The invariant of the reference counts, through `addref` and `release`.
use kaya_basic.Base.{
  ℕ, zero, suc, ◌+◌, ◌<◌, ◌≢◌, ◌≡◌, refl, sym, ap, ◌∙◌, ℕ_discrete, Option, none, some, List, [],
  ◌∷◌, ◌==◌, ltb, ◌&&◌, if◌then◌else◌, get_elem?, set, ok, arith,
}
use kaya_basic.Cpp.Int.{ℤ, pos, ◌+ℤ◌, ◌-ℤ◌}
use mathlib.Core.Option.{some-injective}
use kaya_basic.Objects.{Ptr, Heap, put_count, new_object, addref, release}

-- How many of the pointers are `p`.
abbrev pub refs_to : Ptr → List (Option Ptr) → ℕ
refs_to p [] = 0
refs_to p (none ∷ rs) = refs_to p rs
refs_to p (some q ∷ rs) = (if q == p then 1 else 0) + refs_to p rs

abbrev pub times_in : Ptr → List Ptr → ℕ
times_in p [] = 0
times_in p (q ∷ qs) = (if q == p then 1 else 0) + times_in p qs

-- What one reference adds.
abbrev pub ref_to : Ptr → Option Ptr → ℕ
ref_to p none = 0
ref_to p (some q) = if q == p then 1 else 0

pub refs_to-cons :
    (p : Ptr) (r : Option Ptr) (rs : List (Option Ptr))
    → refs_to p (r ∷ rs) ≡ ref_to p r + refs_to p rs
refs_to-cons p none rs = omega arith
refs_to-cons p (some q) rs = refl

-- Writing a variable takes what it referred to out of the references, and puts the new one in.
pub refs_to-set :
    (p : Ptr) (vs : List (Option Ptr)) (i : ℕ) (r x : Option Ptr)
    → get_elem? vs i ≡ some r
    → (ref_to p r + refs_to p (set vs i none) ≡ refs_to p vs)
      × (ref_to p x + refs_to p (set vs i none) ≡ refs_to p (set vs i x))
refs_to-set p [] i r x e = ground arith
refs_to-set p (v ∷ vs) zero r x e =
    ground (arith, refs_to-cons p v vs, refs_to-cons p x vs, ap (ref_to p) (some-injective _ _ e))
refs_to-set p (v ∷ vs) (suc i) r x e = omega (
  arith,
  refs_to-set p vs i r x e,
  refs_to-cons p v vs,
  refs_to-cons p v (set vs i none),
  refs_to-cons p v (set vs i x),
)

pub refs_to-get_elem? :
    (p : Ptr) (vs : List (Option Ptr)) (i : ℕ) → get_elem? vs i ≡ some (some p) → refs_to p vs ≢ 0
refs_to-get_elem? p [] i e = ground arith
refs_to-get_elem? p (v ∷ vs) zero e = ground arith
refs_to-get_elem? p (none ∷ vs) (suc i) e = refs_to-get_elem? p vs i e
refs_to-get_elem? p (some v ∷ vs) (suc i) e = ground (arith, refs_to-get_elem? p vs i e)

-- The count of an object with `n` references; without one there is no object.
abbrev pub counted : ℕ → Option ℤ
counted zero = none
counted (suc n) = some (pos (suc n))

-- What holds of the object `p` when `n` references to it are left.
pub record CountedAt (h : Heap) (p : Ptr) (n : ℕ) : Type 0 where
  pub alive : h.refcnt p ≡ counted n
  pub once : times_in p h.deleted ≡ (if ltb p h.next && n == 0 then 1 else 0)
  pub made : n ≢ 0 → p < h.next

-- The counts are those of the references `rs`; every object that was made and has no reference was
-- deleted, once, and no other.
abbrev pub Counted : Heap → List (Option Ptr) → Type 0
Counted h rs = (p : Ptr) → CountedAt h p (refs_to p rs)

pub Counted-again :
    (h : Heap) (rs rs' : List (Option Ptr))
    → ((p : Ptr) → refs_to p rs ≡ refs_to p rs')
    → Counted h rs
    → Counted h rs'
Counted-again h rs rs' same c p = rw (← same p) (c p)

-- The heap with the count of `q` changed.
abbrev recounted : Heap → Ptr → Option ℤ → Heap
recounted h q v = record h { refcnt = put_count h.refcnt q v }

addref_at :
    (h : Heap) (q p : Ptr) (n k : ℕ)
    → k ≢ 0
    → CountedAt h p n
    → (q ≡ p → n ≡ k)
    → CountedAt (recounted h q (some (pos (suc k)))) p ((if q == p then 1 else 0) + n)
addref_at h q p n k ne c same = elim (ℕ_discrete q p) [
  | yes here ↦ ground (arith, same here, c.made)
  | no other ↦ ground (arith, c.made)
]

addref_lem :
    (h : Heap) (q : Ptr) (m : ℕ)
    → h.refcnt q ≡ some (pos m)
    → addref (some q) h ≡ ok (recounted h q (some (pos (suc m))))
unfolding addref ◌+ℤ◌
addref_lem h q m e = ground arith

alive_of : (n : ℕ) → n ≢ 0 → counted n ≡ some (pos n)
alive_of zero ne = absurd (ne refl)
alive_of (suc n) ne = refl

-- A reference more, to an object that has one.
pub addref-Counted :
    (h : Heap) (rs : List (Option Ptr)) (q : Ptr)
    → Counted h rs
    → refs_to q rs ≢ 0
    → (h' : Heap) × (addref (some q) h ≡ ok h') × Counted h' (some q ∷ rs)
addref-Counted h rs q c ne =
    let n = refs_to q rs in
    let e : h.refcnt q ≡ some (pos n) = (c q).alive ∙ alive_of n ne in
    (
      recounted h q (some (pos (suc n))),
      addref_lem h q n e,
      λ p. addref_at h q p (refs_to p rs) n ne (c p) (λ e. ap (λ p. refs_to p rs) (sym e)),
    )

release_last :
    (h : Heap) (q : Ptr)
    → h.refcnt q ≡ some (pos 1)
    → release (some q) h
      ≡ ok (record h { refcnt = put_count h.refcnt q none; deleted = q ∷ h.deleted }, none)
unfolding release ◌-ℤ◌
release_last h q e = ground arith

release_one :
    (h : Heap) (q : Ptr) (m : ℕ)
    → h.refcnt q ≡ some (pos (suc (suc m)))
    → release (some q) h ≡ ok (recounted h q (some (pos (suc m))), some q)
unfolding release ◌-ℤ◌
release_one h q m e = ground arith

refs_to_self : (q : Ptr) (rs : List (Option Ptr)) → refs_to q (some q ∷ rs) ≡ suc (refs_to q rs)
refs_to_self q rs = ground arith

release_last_at :
    (h : Heap) (q p : Ptr) (n : ℕ)
    → CountedAt h p ((if q == p then 1 else 0) + n)
    → (q ≡ p → n ≡ 0)
    → CountedAt (record h { refcnt = put_count h.refcnt q none; deleted = q ∷ h.deleted }) p n
release_last_at h q p n c same = elim (ℕ_discrete q p) [
  | yes here ↦ ground (arith, same here, c.made)
  | no other ↦ ground (arith, c.made)
]

release_one_at :
    (h : Heap) (q p : Ptr) (n m : ℕ)
    → CountedAt h p ((if q == p then 1 else 0) + n)
    → (q ≡ p → n ≡ suc m)
    → CountedAt (recounted h q (some (pos (suc m)))) p n
release_one_at h q p n m c same = elim (ℕ_discrete q p) [
  | yes here ↦ ground (arith, same here, c.made)
  | no other ↦ ground (arith, c.made)
]

release_case :
    (h : Heap) (rs : List (Option Ptr)) (q : Ptr) (n : ℕ)
    → refs_to q rs ≡ n
    → Counted h (some q ∷ rs)
    → (h' : Heap) × (r : Option Ptr) × (release (some q) h ≡ ok (h', r)) × Counted h' rs
release_case h rs q zero e c = (
  record h { refcnt = put_count h.refcnt q none; deleted = q ∷ h.deleted },
  none,
  release_last h q ((c q).alive ∙ ap counted (refs_to_self q rs ∙ ap suc e)),
  λ p. release_last_at h q p (refs_to p rs) (c p) (λ here. ap (λ p. refs_to p rs) (sym here) ∙ e),
)
release_case h rs q (suc m) e c = (
  recounted h q (some (pos (suc m))),
  some q,
  release_one h q m ((c q).alive ∙ ap counted (refs_to_self q rs ∙ ap suc e)),
  λ p. release_one_at h q p (refs_to p rs) m (c p) (λ here. ap (λ p. refs_to p rs) (sym here) ∙ e),
)

-- A reference less.
pub release-Counted :
    (h : Heap) (rs : List (Option Ptr)) (r : Option Ptr)
    → Counted h (r ∷ rs)
    → (h' : Heap) × (r' : Option Ptr) × (release r h ≡ ok (h', r')) × Counted h' rs
release-Counted h rs none c = (h, none, unfold release in refl, c)
release-Counted h rs (some q) c = release_case h rs q (refs_to q rs) refl c

-- A new object and its first reference.
new_at :
    (h : Heap) (p : Ptr) (n : ℕ)
    → CountedAt h p n
    → CountedAt
        (record {
          refcnt = put_count (put_count h.refcnt h.next (some (pos 0))) h.next (some (pos 1));
          deleted = h.deleted;
          next = suc h.next;
        })
        p
        ((if h.next == p then 1 else 0) + n)
new_at h p n c = elim (ℕ_discrete h.next p) [
  | yes here ↦ ground (arith, c.made)
  | no other ↦ ground (arith, c.made)
]

pub new-Counted :
    (h : Heap) (rs : List (Option Ptr))
    → Counted h rs
    → let (h1, p) = new_object h in
      (h' : Heap) × (addref (some p) h1 ≡ ok h') × Counted h' (some p ∷ rs)
unfolding new_object addref ◌+ℤ◌
new-Counted h rs c = (_, ground arith, λ p. new_at h p (refs_to p rs) (c p))
