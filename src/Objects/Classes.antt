-- ===== src/Objects/Classes.antt =====
-- The list of classes, and `CreateObject`.
use kaya_basic.Base.{
  ◌≡◌, refl, ◌∙◌, arith, Bool, true, false, Option, none, some, List, [], ◌∷◌, ◌++◌, if◌then◌else◌,
  All, Bytes, codes, Outcome, ok, throws, text,
}
use kaya_basic.Cpp.Text.{equal}
use kaya_basic.Objects.{Ptr, Heap, Ref, new_object, addref, ref_of}

-- A class: its name, and its `create`, which the translated program gives.
pub record Class : Type 0 where
  pub name : Bytes
  pub create : Heap → Outcome (Heap × Ref)

-- `create` of `__rtti_object`, the class that the list holds from the start.
unfoldable pub object_class : Class
object_class = record {
  name = codes "OBJECT";
  create = λ h. let (h', p) = new_object h in ref_of (some p) false h';
}

-- `classlist::list`, the class that was added last first.
unfoldable pub add_class : Class → List Class → List Class
add_class cl list = cl ∷ list

unfoldable pub find_class : Bytes → List Class → Option Class
find_class name [] = none
find_class name (cl ∷ list) =
    let rest = find_class name list in if equal cl.name name then some cl else rest

-- A class that is not in the list gives a null reference.
unfoldable pub create_object : List Class → Bytes → Heap → Outcome (Heap × Ref)
create_object list classname h = elim (find_class classname list) [
  | some cl ↦ cl.create h
  | none ↦ ref_of none false h
]

-- No class of the list has the name.
abbrev pub Lacks : Bytes → List Class → Type 0
Lacks name = All (λ (cl : Class). equal cl.name name ≡ false)

equal_self : (s : Bytes) → equal s s ≡ true
unfolding equal
equal_self [] = refl
equal_self (c ∷ s) = ground (arith, equal_self s)

find_class-append :
    (name : Bytes) (added list : List Class)
    → Lacks name added
    → find_class name (added ++ list) ≡ find_class name list
unfolding find_class
find_class-append name [] list h = refl
find_class-append name (cl ∷ added) list (h, hs) = rw h (find_class-append name added list hs)

-- `CreateObject` creates an object of the class of that name that was added last, whatever classes
-- of other names were added since.
pub create_object-add_class :
    (added list : List Class) (cl : Class) (h : Heap)
    → Lacks cl.name added
    → create_object (added ++ add_class cl list) cl.name h ≡ cl.create h
unfolding create_object add_class
create_object-add_class added list cl h lacks =
    let found : find_class cl.name (cl ∷ list) ≡ some cl =
      unfold find_class in rw (equal_self cl.name) refl in
    ground (arith, find_class-append cl.name added (cl ∷ list) lacks ∙ found)

find_class-none : (name : Bytes) (list : List Class) → Lacks name list → find_class name list ≡ none
unfolding find_class
find_class-none name [] h = refl
find_class-none name (cl ∷ list) (h, hs) = rw h (find_class-none name list hs)

create_object-null :
    (list : List Class) (name : Bytes) (h : Heap)
    → Lacks name list
    → create_object list name h ≡ ok (h, record { ptr = none; me = false })
unfolding create_object ref_of addref
create_object-null list name h lacks = ground (arith, find_class-none name list lacks)

-- `check_class`, in a debug build: a reference to an object that is not of the class is set to
-- null, and the cast refused.
unfoldable pub check_class : (Ptr → Bool) → Ref → Ref × Outcome (Unit {0})
check_class is_base r = elim r.ptr [
  | none ↦ (r, ok tt)
  | some p ↦
      if is_base p
      then (r, ok tt)
      else (record r { ptr = none }, throws (text (codes "illegal typecast")))
]
