-- ===== src/Memory.antt =====
-- The functions on raw memory of lib/System.cpp, and `nullify` of lib/core/core.cpp.
pub mod Blocks
pub mod Laws
use kaya_basic.Base.{
  ℕ, zero, suc, ◌+◌, ◌-◌, ◌≤◌, ◌<◌, min, Bool, true, false, ◌&&◌, ◌||◌, Option, none, some, List,
  [], ◌∷◌, ltb, leb, ◌==◌, if◌then◌else◌, Bytes, Outcome, ok, undefined, ◌>>=◌,
}
use kaya_basic.Cpp.Int.{ℤ, pos, negsuc}
use kaya_basic.Cpp.Word.{to_size, to_long}

-- A variable or what `malloc` gave, which `free` takes.
pub record Block : Type 0 where
  pub start : ℕ
  pub size : ℕ
  pub heap : Bool

-- What the program may touch, and the byte at each address.
pub record Memory : Type 0 where
  pub blocks : List Block
  pub bytes : ℕ → ℕ

-- Are the `n` bytes from `a` on inside the block?
abbrev pub holds : Block → ℕ → ℕ → Bool
holds b a n = leb b.start a && leb (a + n) (b.start + b.size)

unfoldable pub within : List Block → ℕ → ℕ → Bool
within [] a n = false
within (b ∷ bs) a n = let rest = within bs a n in if holds b a n then true else rest

-- Do two runs of `n` bytes have none in common?
abbrev pub apart : ℕ → ℕ → ℕ → Bool
apart a b n = leb (a + n) b || leb (b + n) a

-- `memcpy`, `memset` and `memcmp`: bytes outside a variable or a block are not to be touched.
unfoldable pub copied : ℕ → ℕ → ℕ → (ℕ → ℕ) → ℕ → ℕ
copied p1 p2 n bytes a = if leb p1 a && ltb a (p1 + n) then bytes (p2 + (a - p1)) else bytes a

unfoldable pub mem_cpy : ℤ → ℤ → ℤ → Memory → Outcome Memory
mem_cpy p1 p2 count m =
    let d = to_size p1 in
    let s = to_size p2 in
    let n = to_size count in
    if within m.blocks d n && (within m.blocks s n && apart d s n)
    then ok (record m { bytes = copied d s n m.bytes })
    else undefined

unfoldable pub mem_set : ℤ → ℕ → ℤ → Memory → Outcome Memory
mem_set dest ch count m =
    let d = to_size dest in
    let n = to_size count in
    if within m.blocks d n
    then ok (record m { bytes = λ a. if leb d a && ltb a (d + n) then ch else m.bytes a })
    else undefined

-- `nullify`
unfoldable pub nullify : ℤ → ℤ → Memory → Outcome Memory
unfolding mem_set
nullify ptr size m = mem_set ptr 0 size m

-- The first bytes that differ decide; `differ` is what `memcmp` gives for them.
unfoldable pub compared : (ℕ → ℕ → ℤ) → ℕ → ℕ → ℕ → (ℕ → ℕ) → ℤ
compared differ a b zero bytes = pos 0
compared differ a b (suc n) bytes =
    let rest = compared differ (suc a) (suc b) n bytes in
    if bytes a == bytes b then rest else differ (bytes a) (bytes b)

unfoldable pub mem_cmp : (ℕ → ℕ → ℤ) → ℤ → ℤ → ℤ → Memory → Outcome ℤ
unfolding compared
mem_cmp differ p1 p2 size m =
    let a = to_size p1 in
    let b = to_size p2 in
    let n = to_size size in
    if within m.blocks a n && within m.blocks b n
    then ok (compared differ a b n m.bytes)
    else undefined

-- A pointer as a `Long`.
abbrev pub var_ptr : ℕ → ℤ
var_ptr var = to_long var

-- `VarPtr_STRING`: the bytes up to a NUL, which is to stand in a block.
unfoldable pub string_at : ℕ → ℕ → Memory → Outcome Bytes
string_at zero a m = undefined
string_at (suc left) a m =
    let rest = string_at left (suc a) m in
    if within m.blocks a 1
    then (if m.bytes a == 0 then ok [] else (rest >>= λ s. ok (m.bytes a ∷ s)))
    else undefined

unfoldable pub var_ptr_string : ℕ → ℤ → Memory → Outcome Bytes
var_ptr_string left ptr m = string_at left (to_size ptr) m

-- The blocks without the one that begins there, if `free` may have it.
unfoldable pub freed : ℕ → List Block → Option (Block × List Block)
freed a [] = none
freed a (b ∷ bs) =
    let rest = freed a bs in
    if b.start == a && b.heap
    then some (b, bs)
    else elim rest [ none ↦ none | some (c, cs) ↦ some (c, b ∷ cs) ]

abbrev pub heap_block : ℕ → ℕ → Block
heap_block a n = record { start = a; size = n; heap = true }

-- What `realloc` does to the block `b` of size `n` from then on, where `bs` are the other blocks:
-- the bytes that both sizes have are moved; where it gives a null pointer the block stays, or is
-- freed where the size is 0.
abbrev pub moved : ℕ → Memory → Block → List Block → Option ℕ → ℤ × Memory
moved n m b bs none = (pos 0, if n == 0 then record m { blocks = bs } else m)
moved n m b bs (some a) = (
  var_ptr a,
  record { blocks = heap_block a n ∷ bs; bytes = copied a b.start (min b.size n) m.bytes },
)

-- `malloc n` is the address that it gives in a state of the memory, and `realloc n b` the one to
-- which it moves the block `b`, with `none` for a null pointer.
module _ (malloc : ℕ → Memory → Option ℕ) where
  unfoldable pub memory_create : ℤ → Memory → ℤ × Memory
  memory_create count m =
      let n = to_size count in
      elim (malloc n m) [
        | none ↦ (pos 0, m)
        | some a ↦ (var_ptr a, record m { blocks = heap_block a n ∷ m.blocks })
      ]

  unfoldable pub memory_resize :
      (ℕ → Block → Memory → Option ℕ) → ℤ → ℤ → Memory → Outcome (ℤ × Memory)
  unfolding memory_create
  memory_resize realloc p1 newsize m =
      let fresh = memory_create newsize m in
      if to_size p1 == 0 then ok fresh else elim (freed (to_size p1) m.blocks) [
        | none ↦ undefined
        | some (b, bs) ↦ ok (moved (to_size newsize) m b bs (realloc (to_size newsize) b m))
      ]

-- `free`, which does nothing with a null pointer.
unfoldable pub memory_free : ℤ → Memory → Outcome Memory
memory_free p1 m = if to_size p1 == 0 then ok m else elim (freed (to_size p1) m.blocks) [
  | none ↦ undefined
  | some (b, bs) ↦ ok (record m { blocks = bs })
]
