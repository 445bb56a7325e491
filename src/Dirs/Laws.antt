-- ===== src/Dirs/Laws.antt =====
-- What `CloseDir` closes.
use kaya_basic.Base.{
  ◌<◌, ◌≢◌, ◌≡◌, refl, arith, true, false, Option, none, some, List, [], ◌∷◌, length,
  length-ne-zero, Bytes, ok,
}
use kaya_basic.Dirs.{
  Handle, Levels, max_dir_level, read_entry, dir, close_level, close_levels, close_dir,
}

-- The list, backwards, before another.
unfoldable pub back_onto : List Handle → List Handle → List Handle
back_onto [] ys = ys
back_onto (x ∷ xs) ys = back_onto xs (x ∷ ys)

close_levels-all :
    (hs closed : List Handle)
    → close_levels (length hs) (record { open_dirs = hs; closed_dirs = closed })
      ≡ record { open_dirs = []; closed_dirs = back_onto hs closed }
unfolding close_levels close_level back_onto
close_levels-all [] closed = refl
close_levels-all (h ∷ hs) closed = ground (arith, close_levels-all hs (h ∷ closed))

close_dir-all_parts :
    (hs closed : List Handle)
    → close_dir true (record { open_dirs = hs; closed_dirs = closed })
      ≡ record { open_dirs = []; closed_dirs = back_onto hs closed }
unfolding close_dir close_level back_onto
close_dir-all_parts [] closed = refl
close_dir-all_parts (h ∷ hs) closed = ground (arith, close_levels-all hs (h ∷ closed))

-- `CloseDir(true)` ends with no level open, and has closed every directory that was open, once and
-- from the innermost to the outermost.
pub close_dir-all :
    (s : Levels)
    → close_dir true s
      ≡ record { open_dirs = []; closed_dirs = back_onto s.open_dirs s.closed_dirs }
close_dir-all s = close_dir-all_parts s.open_dirs s.closed_dirs

-- Where a level is left and the directory can be opened, `Dir` of a path opens one level and
-- returns an entry, and `CloseDir(false)` then closes that directory and no other.
pub close_dir-dir :
    (readdir : Handle → Option Bytes) (opendir : Bytes → Option Handle) (path : Bytes) (h : Handle)
    (s : Levels)
    → path ≢ []
    → length s.open_dirs < max_dir_level
    → opendir path ≡ some h
    → (s' : Levels) × (name : Bytes) × (dir readdir opendir path s ≡ ok (s', name))
      × (s'.open_dirs ≡ h ∷ s.open_dirs)
      × (close_dir false s' ≡ record s { closed_dirs = h ∷ s.closed_dirs })
unfolding dir read_entry close_dir close_level
close_dir-dir readdir opendir path h s ne lt e = (
  record s { open_dirs = h ∷ s.open_dirs },
  (elim (readdir h) [ none ↦ [] | some name ↦ name ]),
  ground (arith, length-ne-zero path ne),
  refl,
  ground arith,
)
