-- ===== src/Libraries.antt =====
-- The shared libraries that a program loads: `loadlib`, `unloadlibs`, `getlibhandle` and
-- `getprocaddr` of lib/core/core.cpp.
pub mod Laws
use kaya_basic.Base.{
  ℕ, Bool, true, false, Option, none, some, List, [], ◌∷◌, ◌++◌, ltb, ◌==◌, if◌then◌else◌, Bytes,
  codes, Outcome, ok, throws, out_of_range,
}
use kaya_basic.Cpp.Text.{c_str, equal}

-- `hlib`, in the order of its keys; what was printed; and the handles that were given back.
pub record Loaded (Handle : Type 0) : Type 0 where
  pub hlib : List (Bytes × Handle)
  pub printed : Bytes
  pub freed : List Handle

-- `operator<` of `std::string`.
unfoldable pub less : Bytes → Bytes → Bool
less s [] = false
less [] (d ∷ t) = true
less (c ∷ s) (d ∷ t) = if c == d then less s t else ltb c d

module _ {Handle : Type 0} where
  -- `hlib[lib] = hdr`
  unfoldable pub insert : Bytes → Handle → List (Bytes × Handle) → List (Bytes × Handle)
  insert lib hdr [] = (lib, hdr) ∷ []
  insert lib hdr ((l, h) ∷ rest) =
      let behind = insert lib hdr rest in
      if equal l lib
      then (l, hdr) ∷ rest
      else if less lib l
      then (lib, hdr) ∷ (l, h) ∷ rest
      else (l, h) ∷ behind

  unfoldable pub lookup : Bytes → List (Bytes × Handle) → Option Handle
  lookup lib [] = none
  lookup lib ((l, h) ∷ rest) =
      let behind = lookup lib rest in if equal l lib then some h else behind

  -- `load` is `dlopen`.
  unfoldable pub load_lib : (Bytes → Option Handle) → Bytes → Loaded Handle → Loaded Handle
  load_lib load lib s = elim (load (c_str lib)) [
    | none ↦ record s { printed = s.printed ++ codes "can't load " ++ c_str lib }
    | some hdr ↦ record s { hlib = insert lib hdr s.hlib }
  ]

  -- Every handle is given back, in the order of the keys; the map keeps them.
  free_from : List (Bytes × Handle) → List Handle → List Handle
  free_from [] freed = freed
  free_from ((l, h) ∷ rest) freed = free_from rest (h ∷ freed)

  unfoldable pub unload_libs : Loaded Handle → Loaded Handle
  unfolding free_from
  unload_libs s = record s { freed = free_from s.hlib s.freed }

  -- `at`
  abbrev pub found : Option Handle → Outcome Handle
  found (some h) = ok h
  found none = throws out_of_range

  unfoldable pub get_lib_handle : Bytes → Loaded Handle → Outcome Handle
  get_lib_handle lib s = found (lookup lib s.hlib)

  -- `symbol` is `dlsym`; a null pointer is `none`.
  unfoldable pub get_proc_addr :
      {Proc : Type 0}
      → (Handle → Bytes → Option Proc)
      → Handle
      → Bytes
      → Loaded Handle
      → Option Proc × Loaded Handle
  get_proc_addr symbol lib func s = elim (symbol lib (c_str func)) [
    | none ↦
        (none, record s { printed = s.printed ++ codes "can't get proc address of " ++ c_str func })
    | some p ↦ (some p, s)
  ]
