-- ===== src/Objects.antt =====
-- `ref<T>`, `object` and `classlist` of lib/core/core.h, and `CreateObject` of lib/System.cpp.
pub mod Counted
pub mod Terminating
pub mod Scopes
pub mod Classes
pub mod Graph
use kaya_basic.Base.{
  ℕ, suc, ◌+◌, Bool, true, false, Option, none, some, List, [], ◌∷◌, ◌==◌, if◌then◌else◌, Outcome,
  ok, undefined, ◌>>=◌,
}
use kaya_basic.Cpp.Int.{ℤ, pos, ◌+ℤ◌, ◌-ℤ◌, eqb_ℤ}

-- An object is known by the number that `new` gave it; a null pointer is `none`.
abbrev pub Ptr : Type 0
Ptr = ℕ

-- `__refcnt` of each object, none for one that is not there; the objects that were terminated and
-- deleted, the last first; and the next number.
pub record Heap : Type 0 where
  pub refcnt : Ptr → Option ℤ
  pub deleted : List Ptr
  pub next : Ptr

pub record Ref : Type 0 where
  pub ptr : Option Ptr
  pub me : Bool

abbrev pub put_count : (Ptr → Option ℤ) → Ptr → Option ℤ → Ptr → Option ℤ
put_count m p v q = if q == p then v else m q

-- `new object`: the constructor sets the count to 0.
unfoldable pub new_object : Heap → Heap × Ptr
new_object h =
    (record h { refcnt = put_count h.refcnt h.next (some (pos 0)); next = suc h.next }, h.next)

-- `addref`. To write to an object that is not there has no defined result.
unfoldable pub addref : Option Ptr → Heap → Outcome Heap
addref none h = ok h
addref (some p) h = elim (h.refcnt p) [
  | none ↦ undefined
  | some n ↦ ok (record h { refcnt = put_count h.refcnt p (some (n +ℤ pos 1)) })
]

-- `release`, with the pointer as it is left. The last release terminates and deletes the object.
unfoldable pub release : Option Ptr → Heap → Outcome (Heap × Option Ptr)
release none h = ok (h, none)
release (some p) h = elim (h.refcnt p) [
  | none ↦ undefined
  | some n ↦
      if eqb_ℤ (n -ℤ pos 1) (pos 0)
      then ok (record h { refcnt = put_count h.refcnt p none; deleted = p ∷ h.deleted }, none)
      else ok (record h { refcnt = put_count h.refcnt p (some (n -ℤ pos 1)) }, some p)
]

-- The constructors and the destructor.
unfoldable pub null_ref : Ref
null_ref = record { ptr = none; me = false }

unfoldable pub copy_ref : Ref → Heap → Outcome (Heap × Ref)
copy_ref x h = do h' ← addref x.ptr h; ok (h', record { ptr = x.ptr; me = false })

unfoldable pub ref_of : Option Ptr → Bool → Heap → Outcome (Heap × Ref)
ref_of p me h =
    if me
    then ok (h, record { ptr = p; me = me })
    else (do h' ← addref p h; ok (h', record { ptr = p; me = me }))

unfoldable pub destroy : Ref → Heap → Outcome Heap
destroy r h = if r.me then ok h else (do (h', p) ← release r.ptr h; ok h')

-- `r = x`: the argument is a copy, which is destroyed when the operator is done.
unfoldable pub assign_ref : Ref → Ref → Heap → Outcome (Heap × Ref)
unfolding copy_ref destroy
assign_ref r x h = do
  (h1, x') ← copy_ref x h
  (h2, p) ← release r.ptr h1
  h3 ← addref x'.ptr h2
  h4 ← destroy x' h3
  ok (h4, record r { ptr = x'.ptr })
