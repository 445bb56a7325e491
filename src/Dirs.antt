-- ===== src/Dirs.antt =====
-- The levels of open directories of lib/System.cpp: `Dir` and `CloseDir`.
pub mod Laws
use kaya_basic.Base.{
  ℕ, zero, suc, ◌+◌, Bool, true, false, Option, none, some, List, [], ◌∷◌, ltb, ◌==◌, if◌then◌else◌,
  length, Bytes, Outcome, ok, undefined, ◌>>=◌,
}

abbrev pub max_dir_level : ℕ
max_dir_level = 1024

-- A directory stream is known by a number.
abbrev pub Handle : Type 0
Handle = ℕ

-- `tagDirLevel[0 .. dirIndex]`, the innermost level first, and the streams that were closed, the
-- last first.
pub record Levels : Type 0 where
  pub open_dirs : List Handle
  pub closed_dirs : List Handle

-- `readdir` is what the next entry of a stream is; `opendir` gives no stream if it fails.
module _ (readdir : Handle → Option Bytes) (opendir : Bytes → Option Handle) where
  -- The end of `Dir`; without a level, `dirIndex` is -1.
  unfoldable pub read_entry : Levels → Outcome Bytes
  read_entry s = elim s.open_dirs [
    | [] ↦ undefined
    | h ∷ hs ↦ ok (elim (readdir h) [ none ↦ [] | some name ↦ name ])
  ]

  -- A level past the end of `tagDirLevel` is written outside it.
  unfoldable pub dir : Bytes → Levels → Outcome (Levels × Bytes)
  unfolding read_entry
  dir path s =
      if length path == 0
      then (do entry ← read_entry s; ok (s, entry))
      else if ltb (length s.open_dirs) max_dir_level
      then elim (opendir path) [
        | none ↦ ok (s, [])
        | some h ↦ do
          let s' = record s { open_dirs = h ∷ s.open_dirs }
          entry ← read_entry s'
          ok (s', entry)
      ]
      else undefined

-- `CloseDir(false)`
unfoldable pub close_level : Levels → Levels
close_level s = elim s.open_dirs [
  | [] ↦ s
  | h ∷ hs ↦ record { open_dirs = hs; closed_dirs = h ∷ s.closed_dirs }
]

-- `while (dirIndex >= 0) CloseDir(false);`, for the rounds left.
unfoldable pub close_levels : ℕ → Levels → Levels
close_levels zero s = s
close_levels (suc k) s = if length s.open_dirs == 0 then s else close_levels k (close_level s)

unfoldable pub close_dir : Bool → Levels → Levels
close_dir close_all s =
    let s' = close_level s in
    if length s.open_dirs == 0
    then s
    else if close_all
    then close_levels (length s'.open_dirs) s'
    else s'
