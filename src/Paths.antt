-- ===== src/Paths.antt =====
-- What lib/System.cpp asks the operating system about paths.
use kaya_basic.Base.{
  ℕ, Bool, true, false, Option, none, some, if◌then◌else◌, Bytes, Outcome, ok, undefined, ◌>>=◌,
}
use kaya_basic.Cpp.Int.{ℤ, pos}
use kaya_basic.Cpp.Text.{c_str}

-- `st_mode & S_IFMT`.
pub data Mode : Type 0 where
  dir fifo chr blk reg other : Mode

abbrev s_isdir : Mode → ℤ
s_isdir dir = pos 1
s_isdir _ = pos 0

abbrev s_isfifo : Mode → ℤ
s_isfifo fifo = pos 1
s_isfifo _ = pos 0

abbrev s_ischr : Mode → ℤ
s_ischr chr = pos 1
s_ischr _ = pos 0

abbrev s_isblk : Mode → ℤ
s_isblk blk = pos 1
s_isblk _ = pos 0

abbrev s_isreg : Mode → ℤ
s_isreg reg = pos 1
s_isreg _ = pos 0

-- `stat` writes nothing where it fails, and the mode that is then read was never written. A path is
-- passed up to its first NUL byte.
module _ (stat : Bytes → Option Mode) where
  info : Bytes → Outcome Mode
  info path = elim (stat (c_str path)) [ some m ↦ ok m | none ↦ undefined ]

  unfoldable pub is_dir : Bytes → Outcome ℤ
  unfolding info
  is_dir path = do m ← info path; ok (s_isdir m)

  unfoldable pub is_fifo : Bytes → Outcome ℤ
  unfolding info
  is_fifo path = do m ← info path; ok (s_isfifo m)

  unfoldable pub is_chr : Bytes → Outcome ℤ
  unfolding info
  is_chr path = do m ← info path; ok (s_ischr m)

  unfoldable pub is_blk : Bytes → Outcome ℤ
  unfolding info
  is_blk path = do m ← info path; ok (s_isblk m)

  unfoldable pub is_reg : Bytes → Outcome ℤ
  unfolding info
  is_reg path = do m ← info path; ok (s_isreg m)

-- `opened` is whether `fopen` for reading, or `opendir`, opens the path. The file or the directory
-- is closed again.
unfoldable pub file_exists : (Bytes → Bool) → Bytes → Bool
file_exists opened filename = opened (c_str filename)

unfoldable pub dir_exists : (Bytes → Bool) → Bytes → Bool
dir_exists opened path = if opened (c_str path) then true else false

-- A variable that is not set makes a text of a null pointer.
unfoldable pub environ : (Bytes → Option Bytes) → Bytes → Outcome Bytes
environ getenv var = elim (getenv (c_str var)) [ some s ↦ ok (c_str s) | none ↦ undefined ]

-- Calls of the operating system that change its state; what they return is not looked at.
module _ {System : Type 0} where
  unfoldable pub ch_dir : (Bytes → System → System) → Bytes → System → System
  ch_dir chdir path s = chdir (c_str path) s

  unfoldable pub mk_dir : (Bytes → ℕ → System → System) → Bytes → System → System
  mk_dir mkdir path s = mkdir (c_str path) 511 s

  unfoldable pub rm_dir : (Bytes → System → System) → Bytes → System → System
  rm_dir rmdir path s = rmdir (c_str path) s

  unfoldable pub kill : (Bytes → System → System) → Bytes → System → System
  kill remove filename s = remove (c_str filename) s

  unfoldable pub rename : (Bytes → Bytes → System → System) → Bytes → Bytes → System → System
  rename renamed oldname newname s = renamed (c_str oldname) (c_str newname) s

  unfoldable pub shell : (Bytes → System → System) → Bytes → System → System
  shell system cmd s = system (c_str cmd) s
