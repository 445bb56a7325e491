-- ===== src/Memory/Laws.antt =====
-- What the functions on raw memory do to the blocks and to the bytes.
use kaya_basic.Base.{
  ℕ, zero, suc, ◌+◌, ◌-◌, ◌^◌, ◌%◌, ◌≤◌, ◌<◌, ◌≢◌, ◌≡◌, refl, ap, ◌∙◌, arith, min, true, false, ◌⊎◌,
  ◌&&◌, Option, none, some, List, ◌∷◌, leb, ltb, ◌==◌, All, ok, undefined,
}
use kaya_basic.Cpp.Int.{ℤ, pos}
use kaya_basic.Cpp.Word.{to_size, to_size-to_long}
use kaya_basic.Memory.{
  Block, Memory, within, apart, copied, mem_cpy, mem_set, compared, mem_cmp, var_ptr, freed,
  heap_block, memory_create, moved, memory_resize, memory_free,
}
use kaya_basic.Memory.Blocks.{
  Clear, AllClear, within-Clear, freed-Clear, freed-Freed, Freed-AllClear,
}

compared-equal :
    (differ : ℕ → ℕ → ℤ) (a b n : ℕ) (bytes : ℕ → ℕ)
    → ((i : ℕ) → i < n → bytes (a + i) ≡ bytes (b + i))
    → compared differ a b n bytes ≡ pos 0
unfolding compared
compared-equal differ a b zero bytes h = refl
compared-equal differ a b (suc n) bytes h =
    let first : bytes a ≡ bytes b =
      ap bytes (omega arith) ∙ h 0 (omega arith) ∙ ap bytes (omega arith) in
    let same : (bytes a == bytes b) ≡ true = ground arith in
    let rest =
      compared-equal differ (suc a) (suc b) n bytes
        (λ i lt. ap bytes (omega arith) ∙ h (suc i) (omega arith) ∙ ap bytes (omega arith)) in
    rw same rest

copied-apart :
    (d s n i : ℕ) (bytes : ℕ → ℕ)
    → apart d s n ≡ true
    → i < n
    → copied d s n bytes (d + i) ≡ copied d s n bytes (s + i)
unfolding copied
copied-apart d s n i bytes h lt =
    let inside : (leb d (d + i) && ltb (d + i) (d + n)) ≡ true = ground arith in
    let outside : (leb d (s + i) && ltb (s + i) (d + n)) ≡ false = ground arith in
    let from : s + (d + i - d) ≡ s + i = omega arith in rw (inside, outside, from) refl

copied-outside :
    (d s n q : ℕ) (bytes : ℕ → ℕ) → (q < d) ⊎ (d + n ≤ q) → copied d s n bytes q ≡ bytes q
unfolding copied
copied-outside d s n q bytes out =
    let outside : (leb d q && ltb q (d + n)) ≡ false = ground arith in rw outside refl

-- `MemCpy` between two runs of bytes that do not overlap makes them equal for `MemCmp`, and changes
-- no byte outside the first.
pub mem_cpy-mem_cmp :
    (differ : ℕ → ℕ → ℤ) (p1 p2 count : ℤ) (m : Memory) (q : ℕ)
    → within m.blocks (to_size p1) (to_size count) ≡ true
    → within m.blocks (to_size p2) (to_size count) ≡ true
    → apart (to_size p1) (to_size p2) (to_size count) ≡ true
    → (q < to_size p1) ⊎ (to_size p1 + to_size count ≤ q)
    → (m' : Memory) × (mem_cpy p1 p2 count m ≡ ok m')
      × (mem_cmp differ p1 p2 count m' ≡ ok (pos 0))
      × (m'.bytes q ≡ m.bytes q)
unfolding mem_cpy mem_cmp
mem_cpy-mem_cmp differ p1 p2 count m q h1 h2 h3 out =
    let d = to_size p1 in
    let s = to_size p2 in
    let n = to_size count in
    (
      record m { bytes = copied d s n m.bytes },
      rw (h1, h2, h3) refl,
      rw (h1, h2)
          (ap ok (
            compared-equal differ d s n (copied d s n m.bytes)
              (λ i lt. copied-apart d s n i m.bytes h3 lt))),
      copied-outside d s n q m.bytes out,
    )

-- What is to be relied on of `malloc` in a state of the memory: a block that it gives is clear of
-- the others, and is not at the null pointer.
abbrev pub IsFresh : List Block → ℕ → ℕ → Type 0
IsFresh bs a n = (a ≢ 0) × (a + n < 2 ^ 64) × All (Clear (heap_block a n)) bs

freed_first :
    (a n : ℕ) (bs : List Block) → freed a (heap_block a n ∷ bs) ≡ some (heap_block a n, bs)
unfolding freed
freed_first a n bs = ground arith

memory_free-some :
    (p : ℤ) (m : Memory) (b : Block) (bs : List Block)
    → to_size p ≢ 0
    → freed (to_size p) m.blocks ≡ some (b, bs)
    → memory_free p m ≡ ok (record m { blocks = bs })
unfolding memory_free
memory_free-some p m b bs ne e =
    let not_null : (to_size p == 0) ≡ false = ground arith in rw (not_null, e) refl

memory_free-none :
    (p : ℤ) (m : Memory)
    → to_size p ≢ 0
    → freed (to_size p) m.blocks ≡ none
    → memory_free p m ≡ undefined
unfolding memory_free
memory_free-none p m ne e =
    let not_null : (to_size p == 0) ≡ false = ground arith in rw (not_null, e) refl

mem_set-none :
    (p : ℤ) (ch k : ℕ) (m : Memory)
    → k + 1 < 2 ^ 64
    → within m.blocks (to_size p) (suc k) ≡ false
    → mem_set p ch (pos (k + 1)) m ≡ undefined
unfolding mem_set
mem_set-none p ch k m b e = let size : (k + 1) % 2 ^ 64 ≡ suc k = omega arith in rw (size, e) refl

memory_create-some :
    (malloc : ℕ → Memory → Option ℕ) (count : ℤ) (m : Memory) (a : ℕ)
    → malloc (to_size count) m ≡ some a
    → memory_create malloc count m
      ≡ (var_ptr a, record m { blocks = heap_block a (to_size count) ∷ m.blocks })
unfolding memory_create
memory_create-some malloc count m a e = ground (arith, e)

-- The same for the block at `a`, as a pointer `p` to it.
created_block :
    (p : ℤ) (n k ch : ℕ) (m : Memory)
    → AllClear m.blocks
    → IsFresh m.blocks (to_size p) n
    → k + 1 < 2 ^ 64
    → AllClear (heap_block (to_size p) n ∷ m.blocks)
      × (memory_free p (record m { blocks = heap_block (to_size p) n ∷ m.blocks }) ≡ ok m)
      × (memory_free p m ≡ undefined)
      × (mem_set p ch (pos (k + 1)) m ≡ undefined)
created_block p n k ch m sound (ne, inside, clear) b = (
  (ne, inside, clear, sound),
  memory_free-some p _ (heap_block (to_size p) n) m.blocks ne (freed_first (to_size p) n m.blocks),
  memory_free-none p m ne (freed-Clear (heap_block (to_size p) n) m.blocks clear),
  mem_set-none p ch k m b (within-Clear (heap_block (to_size p) n) m.blocks k clear),
)

-- `MemoryCreate` gives a block that overlaps no other. `MemoryFree` of it gives the memory as it
-- was, and from then on neither `MemoryFree` nor `MemSet` has a defined result there.
pub memory_create-memory_free :
    (malloc : ℕ → Memory → Option ℕ) (count : ℤ) (m : Memory) (a k ch : ℕ)
    → AllClear m.blocks
    → malloc (to_size count) m ≡ some a
    → IsFresh m.blocks a (to_size count)
    → k + 1 < 2 ^ 64
    → let (p, m') = memory_create malloc count m in
      AllClear m'.blocks
      × (memory_free p m' ≡ ok m)
      × (memory_free p m ≡ undefined)
      × (mem_set p ch (pos (k + 1)) m ≡ undefined)
memory_create-memory_free malloc count m a k ch sound given fresh b =
    let back : to_size (var_ptr a) ≡ a = to_size-to_long a (omega (arith, fresh.1)) in
    rw (memory_create-some malloc count m a given)
      (rw back at (created_block (var_ptr a) (to_size count) k ch m sound (rw back fresh) b))

-- `MemoryResize` of a block keeps the bytes that the old and the new size both have, and the blocks
-- stay apart, if the new place is clear of the other blocks.
pub memory_resize-bytes :
    (malloc : ℕ → Memory → Option ℕ) (realloc : ℕ → Block → Memory → Option ℕ) (p newsize : ℤ)
    (m : Memory) (b : Block) (bs : List Block) (a i : ℕ)
    → AllClear m.blocks
    → to_size p ≢ 0
    → freed (to_size p) m.blocks ≡ some (b, bs)
    → realloc (to_size newsize) b m ≡ some a
    → IsFresh bs a (to_size newsize)
    → i < min b.size (to_size newsize)
    → (m' : Memory) × (memory_resize malloc realloc p newsize m ≡ ok (var_ptr a, m'))
      × AllClear m'.blocks
      × (m'.bytes (a + i) ≡ m.bytes (to_size p + i))
unfolding memory_resize copied
memory_resize-bytes malloc realloc p newsize m b bs a i sound ne found given (ne', inside, clear)
      lt =
    let not_null : (to_size p == 0) ≡ false = ground arith in
    let (begins, apart, rest) =
      Freed-AllClear (to_size p) m.blocks b bs (freed-Freed (to_size p) m.blocks b bs found)
        sound in
    let kept : (leb a (a + i) && ltb (a + i) (a + min b.size (to_size newsize))) ≡ true =
      ground arith in
    let from : b.start + (a + i - a) ≡ to_size p + i = omega arith in
    (
      record {
        blocks = heap_block a (to_size newsize) ∷ bs;
        bytes = copied a b.start (min b.size (to_size newsize)) m.bytes;
      },
      rw (not_null, found) (ap (λ o. ok (moved (to_size newsize) m b bs o)) given),
      (ne', inside, clear, rest),
      rw (kept, from) refl,
    )
