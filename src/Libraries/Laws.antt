-- ===== src/Libraries/Laws.antt =====
-- A library that was loaded is found by its name, also after others were loaded.
use kaya_basic.Base.{
  ◌≡◌, refl, ap, ◌∙◌, arith, Bool, true, false, Bool-cases, Option-cases, inl, inr, Option, none,
  some, List, [], ◌∷◌, ◌++◌, if◌then◌else◌, Bytes, codes, ok,
}
use kaya_basic.Cpp.Text.{c_str, equal}
use kaya_basic.Dictionary.Laws.{equal_sound, equal_apart, equal_apart_sym}
use kaya_basic.Libraries.{Loaded, less, insert, lookup, found, load_lib, get_lib_handle}

module _ {Handle : Type 0} where
  lookup-insert :
      (lib : Bytes) (hdr : Handle) (hs : List (Bytes × Handle)) (k : Bytes)
      → lookup k (insert lib hdr hs) ≡ (if equal lib k then some hdr else lookup k hs)
  unfolding insert lookup
  lookup-insert lib hdr [] k = refl
  lookup-insert lib hdr ((l, h) ∷ rest) k = elim (Bool-cases (equal l lib)) [
    | inl e ↦ rw (e, ← equal_sound l lib e) (ground arith)
    | inr e ↦ elim (Bool-cases (less lib l)) [
      | inl b ↦ rw (e, b) refl
      | inr b ↦ elim (Bool-cases (equal l k)) [
        | inl m ↦ rw (e, b, m, equal_apart l lib k (equal_apart_sym l lib e) m) refl
        | inr m ↦ rw (e, b, m, lookup-insert lib hdr rest k) refl
      ]
    ]
  ]

  either :
      (b : Bool) (hdr : Handle) (k : Bytes) (s : Loaded Handle)
      → found (if b then some hdr else lookup k s.hlib) ≡ (if b then ok hdr else get_lib_handle k s)
  unfolding get_lib_handle
  either true hdr k s = refl
  either false hdr k s = refl

  load_lib-none :
      (load : Bytes → Option Handle) (lib k : Bytes) (s : Loaded Handle)
      → load (c_str lib) ≡ none
      → get_lib_handle k (load_lib load lib s) ≡ get_lib_handle k s
  unfolding load_lib get_lib_handle
  load_lib-none load lib k s e =
      let failed : load_lib load lib s
          ≡ record s { printed = s.printed ++ codes "can't load " ++ c_str lib } =
        ground (arith, e) in
      ap (get_lib_handle k) failed

  load_lib-some :
      (load : Bytes → Option Handle) (lib k : Bytes) (s : Loaded Handle) (hdr : Handle)
      → load (c_str lib) ≡ some hdr
      → get_lib_handle k (load_lib load lib s)
        ≡ found (if equal lib k then some hdr else lookup k s.hlib)
  unfolding load_lib get_lib_handle
  load_lib-some load lib k s hdr e =
      let loaded : load_lib load lib s ≡ record s { hlib = insert lib hdr s.hlib } =
        ground (arith, e) in
      ap (get_lib_handle k) loaded ∙ ap found (lookup-insert lib hdr s.hlib k)

  -- After a library was loaded its name finds the new handle, and every other name finds what it
  -- found before, or throws where it did. If it cannot be loaded, each name finds what it found
  -- before.
  pub load_lib-get_lib_handle :
      (load : Bytes → Option Handle) (lib k : Bytes) (s : Loaded Handle)
      → get_lib_handle k (load_lib load lib s) ≡ (elim (load (c_str lib)) [
        | none ↦ get_lib_handle k s
        | some hdr ↦ if equal lib k then ok hdr else get_lib_handle k s
      ])
  load_lib-get_lib_handle load lib k s = elim (Option-cases (load (c_str lib))) [
    | inl e ↦ load_lib-none load lib k s e ∙ rw e refl
    | inr (hdr, e) ↦ load_lib-some load lib k s hdr e ∙ rw e (either (equal lib k) hdr k s)
  ]
